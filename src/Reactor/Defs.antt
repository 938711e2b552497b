-- ===== src/Reactor/Defs.antt =====
-- The functions of nvfuse_reactor.c on the queues of a task. A job is its address; `none` is NULL. A
-- call runs under the queue's mutex from its first access to its last, so it is one step.
use nvfuse.Prelude.{
  ℕ, zero, suc, ◌+◌, ◌-◌, ◌%◌, Bool, Option, none, some, List, [], ◌∷◌, ◌++◌, drop, replicate,
  get_or, set, ltb, leb, ◌==◌, if◌then◌else◌, min,
}
use nvfuse.Prelude.Int.{ℤ, pos, negsuc}
use nvfuse.Run.{Run, ok, abort}

-- REACTOR_MAX_REQUEST
abbrev pub max_request : ℕ
max_request = 1024

-- sq[], sq_head and sq_tail, or cq[], cq_head and cq_tail
pub record Ring : Type 0 where
  pub slots : List (Option ℕ)
  pub head : ℕ
  pub tail : ℕ

-- struct reactor_task
pub record Task : Type 0 where
  pub qdepth : ℕ
  pub sq : Ring
  pub cq : Ring

-- The functions that the source has twice, for sq and for cq.
unfoldable pub is_empty : Ring → Bool
is_empty r = r.head == r.tail

unfoldable pub is_full : ℕ → Ring → Bool
is_full qdepth r =
    if leb r.tail r.head then (r.head - r.tail) == (qdepth - 1) else (r.head + 1) == r.tail

unfoldable pub size : ℕ → Ring → ℕ
size qdepth r = if leb r.tail r.head then r.head - r.tail else qdepth - r.tail + r.head

-- queue[head] = req; head = (head + 1) % qdepth
unfoldable pub enter : ℕ → ℕ → Ring → Ring
enter qdepth req r = record {
  slots = set r.slots r.head (some req);
  head = (r.head + 1) % qdepth;
  tail = r.tail;
}

-- queue[tail] = NULL; tail = (tail + 1) % qdepth
unfoldable pub leave : ℕ → Ring → Ring
leave qdepth r = record {
  slots = set r.slots r.tail none;
  head = r.head;
  tail = (r.tail + 1) % qdepth;
}

unfoldable pub put_req : ℕ → ℕ → Ring → Ring × ℤ
unfolding is_full enter
put_req qdepth req r = if is_full qdepth r then (r, negsuc 0) else (enter qdepth req r, pos 0)

unfoldable pub get_req : ℕ → Ring → Ring × Option ℕ
unfolding is_empty leave
get_req qdepth r = if is_empty r then (r, none) else (leave qdepth r, get_or r.slots r.tail none)

-- reactor_sq_put_req(), reactor_sq_get_req() and reactor_cq_put_req()
unfoldable pub sq_put_req : ℕ → Task → Task × ℤ
unfolding put_req
sq_put_req req t = let (r, ret) = put_req t.qdepth req t.sq in (record t { sq = r }, ret)

unfoldable pub sq_get_req : Task → Task × Option ℕ
unfolding get_req
sq_get_req t = let (r, req) = get_req t.qdepth t.sq in (record t { sq = r }, req)

unfoldable pub cq_put_req : ℕ → Task → Task × ℤ
unfolding put_req
cq_put_req req t = let (r, ret) = put_req t.qdepth req t.cq in (record t { cq = r }, ret)

-- The copy loop of reactor_cq_get_reqs(): the jobs, in order.
unfoldable pub take_reqs : ℕ → (n : ℕ) → Ring → Ring × List (Option ℕ)
unfolding leave
take_reqs qdepth zero r = (r, [])
take_reqs qdepth (suc n) r =
    let (r', reqs) = take_reqs qdepth n (leave qdepth r) in (r', get_or r.slots r.tail none ∷ reqs)

-- What reactor_cq_get_reqs() comes to: it waits for the condition variable, or it takes jobs.
pub data Reaped : Type 0 where
  waits : Reaped
  took : Task → List (Option ℕ) → Reaped

unfoldable pub cq_get_reqs : (min_reqs max_reqs : ℕ) → Task → Run Reaped
unfolding take_reqs size
cq_get_reqs min_reqs max_reqs t =
    if min_reqs == 0
    then ok (took t [])
    else if ltb t.qdepth max_reqs
    then abort
    else if ltb (size t.qdepth t.cq) min_reqs
    then ok waits
    else let (r, reqs) = take_reqs t.qdepth (min max_reqs (size t.qdepth t.cq)) t.cq in
      ok (took (record t { cq = r }) reqs)

-- The loop of reactor_submit_reqs(), which stops at the first job that finds the queue full. That a
-- job keeps its task is not modelled.
unfoldable pub submit_all : List ℕ → Task → Task × ℤ
unfolding sq_put_req is_full
submit_all [] t = (t, pos 0)
submit_all (req ∷ reqs) t =
    let rest = submit_all reqs (sq_put_req req t).0 in
    if is_full t.qdepth t.sq then (t, negsuc 0) else rest

-- reactor_alloc_task() on a task of the pool, whose queues hold anything
unfoldable pub alloc_task : ℕ → Task → Option Task
alloc_task qdepth pooled =
    if ltb max_request (qdepth + 1)
    then none
    else some (record {
      qdepth = qdepth + 1;
      sq = record {
        slots = replicate qdepth none ++ drop qdepth pooled.sq.slots;
        head = 0;
        tail = 0;
      };
      cq = record {
        slots = replicate qdepth none ++ drop qdepth pooled.cq.slots;
        head = 0;
        tail = 0;
      };
    })
