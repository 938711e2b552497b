-- ===== src/Reactor/Reap.antt =====
-- Many jobs at once: submission, and the collection of completed jobs.
use nvfuse.Prelude.{
  ℕ, zero, suc, ◌+◌, ◌-◌, ◌≤◌, ◌<◌, ◌≡◌, ◌≢◌, refl, sym, ap, ◌∙◌, ◌⊎◌, subst, inl, inr, Bool, false,
  Option, none, some, List, [], ◌∷◌, ◌++◌, map, length, take, drop, replicate, get_or, leb, ◌==◌,
  if◌then◌else◌, min, arith, eq-cases, lt-cases, length-append, length-replicate, length-drop,
  append-snoc,
}
use mathlib.Core.List.{append-nil}
use nvfuse.Prelude.Int.{ℤ, pos, negsuc}
use nvfuse.Run.{ok}
use nvfuse.Reactor.Defs.{
  max_request, Ring, Task, size, enter, leave, sq_put_req, take_reqs, waits, took, cq_get_reqs,
  submit_all, alloc_task,
}
use nvfuse.Reactor.Fifo.{
  IsRing, contents, size-lt, size-leave, leave-IsRing, contents-leave, is_full-size, put-room,
  contents-enter, size-enter, enter-IsRing,
}

-- The oldest `n` jobs were taken from a ring.
pub record Took (q n : ℕ) (r r' : Ring) (reqs : List (Option ℕ)) : Type 0 where
  pub in_order : reqs ++ contents q r' ≡ contents q r
  pub number : length reqs ≡ n
  pub ring : IsRing q r'

take_reqs_lem :
    (q n : ℕ) (r : Ring)
    → IsRing q r
    → n ≤ size q r
    → Took q n r (take_reqs q n r).0 (take_reqs q n r).1
unfolding take_reqs
take_reqs_lem q zero r v h = record { in_order = refl; number = refl; ring = v }
take_reqs_lem q (suc n) r v h =
    let one = size q r - 1 in
    let rest =
      take_reqs_lem q n (leave q r) (leave-IsRing q r v)
        (omega (arith, size-leave q r v one (omega arith))) in
    record {
      in_order =
          ap (λ t. get_or r.slots r.tail none ∷ t) (rest.in_order)
          ∙ sym (contents-leave q r v one (omega arith));
      number = ap suc (rest.number);
      ring = rest.ring;
    }

cq_get_reqs-waits :
    (min_reqs max_reqs : ℕ) (t : Task)
    → min_reqs ≢ 0
    → max_reqs ≤ t.qdepth
    → size t.qdepth t.cq < min_reqs
    → cq_get_reqs min_reqs max_reqs t ≡ ok waits
unfolding cq_get_reqs
cq_get_reqs-waits min_reqs max_reqs t nz fit few = ground arith

-- A call that asks for at least one job and for no more than the queue has slots, with that many
-- completed, does not wait: it takes the oldest ones, as many as there are and as it may, in
-- order, leaves the rest in the queue, and changes nothing else.
pub cq_get_reqs-took :
    (min_reqs max_reqs : ℕ) (t : Task)
    → IsRing t.qdepth t.cq
    → min_reqs ≢ 0
    → max_reqs ≤ t.qdepth
    → min_reqs ≤ size t.qdepth t.cq
    → (r' : Ring) × (reqs : List (Option ℕ)) × (cq_get_reqs min_reqs max_reqs t
        ≡ ok (took (record t { cq = r' }) reqs))
      × Took t.qdepth (min max_reqs (size t.qdepth t.cq)) t.cq r' reqs
unfolding cq_get_reqs
cq_get_reqs-took min_reqs max_reqs t v nz fit enough =
    let n = min max_reqs (size t.qdepth t.cq) in
    let taken = take_reqs t.qdepth n t.cq in
    (taken.0, taken.1, ground arith, take_reqs_lem t.qdepth n t.cq v (omega arith))

-- The room for jobs that a submission queue has left.
abbrev pub sq_room : Task → ℕ
sq_room t = t.qdepth - 1 - size t.qdepth t.sq

submit-full :
    (req : ℕ) (reqs : List ℕ) (t : Task)
    → IsRing t.qdepth t.sq
    → sq_room t ≡ 0
    → submit_all (req ∷ reqs) t ≡ (t, negsuc 0)
unfolding submit_all
submit-full req reqs t v full =
    rw (is_full-size t.qdepth t.sq v) (ground (arith, size-lt t.qdepth t.sq v))

sq_put-room :
    (req : ℕ) (t : Task)
    → IsRing t.qdepth t.sq
    → sq_room t ≢ 0
    → (sq_put_req req t).0 ≡ record t { sq = enter t.qdepth req t.sq }
unfolding sq_put_req
sq_put-room req t v room =
    ap (λ p. record t { sq = p.0 })
      (put-room t.qdepth t.sq v (omega (arith, size-lt t.qdepth t.sq v)) req)

not_full : (n k : ℕ) {full : Bool} → full ≡ (n == k) → n ≢ k → full ≡ false
not_full n k e ne = ground arith

-- One slot fewer is left when a job is put in.
sq_room-enter :
    (req : ℕ) (t : Task)
    → IsRing t.qdepth t.sq
    → sq_room t ≢ 0
    → suc (sq_room (record t { sq = enter t.qdepth req t.sq })) ≡ sq_room t
sq_room-enter req t v room = omega (arith, size-enter t.qdepth t.sq v req (omega arith))

submit-step :
    (req : ℕ) (reqs : List ℕ) (t : Task)
    → IsRing t.qdepth t.sq
    → sq_room t ≢ 0
    → submit_all (req ∷ reqs) t ≡ submit_all reqs (record t { sq = enter t.qdepth req t.sq })
unfolding submit_all
submit-step req reqs t v room =
    ap (λ b. if b then (t, negsuc 0) else submit_all reqs (sq_put_req req t).0)
      (not_full (size t.qdepth t.sq) (t.qdepth - 1) (is_full-size t.qdepth t.sq v) (omega arith))
    ∙ ap (submit_all reqs) (sq_put-room req t v room)

take-none : (n : ℕ) → take {A = ℕ} n [] ≡ []
take-none zero = refl
take-none (suc n) = refl

no_room : (l n : ℕ) → n ≡ 0 → negsuc 0 ≡ (if leb (suc l) n then pos 0 else negsuc 0)
no_room l n e = ground arith

more_room : (l m n : ℕ) → suc m ≡ n → leb l m ≡ leb (suc l) n
more_room l m n e = ground arith

-- Of the jobs that are submitted, those for which there is room were put last in the queue.
pub record Submitted (reqs : List ℕ) (t : Task) (out : Task × ℤ) : Type 0 where
  pub queued :
      contents t.qdepth (out.0).sq
      ≡ contents t.qdepth t.sq ++ map (λ req. some req) (take (sq_room t) reqs)
  pub answer : out.1 ≡ (if leb (length reqs) (sq_room t) then pos 0 else negsuc 0)
  pub ring : IsRing t.qdepth (out.0).sq
  pub others : ((out.0).cq ≡ t.cq) × ((out.0).qdepth ≡ t.qdepth)

-- A submission puts the jobs in the queue in their order. It returns 0 if there was room for all,
-- and else -1 with those queued that fitted. The completion queue is left alone.
pub submit_all-Submitted :
    (reqs : List ℕ) (t : Task) → IsRing t.qdepth t.sq → Submitted reqs t (submit_all reqs t)
unfolding submit_all
submit_all-Submitted [] t v = record {
  queued = sym (
      ap (λ l. contents t.qdepth t.sq ++ map (λ req. some req) l) (take-none (sq_room t))
      ∙ append-nil _);
  answer = ground arith;
  ring = v;
  others = (refl, refl);
}
submit_all-Submitted (req ∷ reqs) t v = elim (eq-cases (sq_room t) 0) [
  | inl e ↦ subst (Submitted (req ∷ reqs) t) (sym (submit-full req reqs t v e.1)) (record {
    queued =
        sym (append-nil _)
        ∙ ap (λ n. contents t.qdepth t.sq ++ map (λ x. some x) (take n (req ∷ reqs))) (sym e.1);
    answer = no_room (length reqs) (sq_room t) e.1;
    ring = v;
    others = (refl, refl);
  })
  | inr n ↦
      let t' : Task = record t { sq = enter t.qdepth req t.sq } in
      let rest = submit_all-Submitted reqs t' (enter-IsRing t.qdepth t.sq v req) in
      subst (Submitted (req ∷ reqs) t) (sym (submit-step req reqs t v n.1)) (record {
        queued =
            rest.queued
            ∙ ap (λ l. l ++ map (λ x. some x) (take (sq_room t') reqs))
                (contents-enter t.qdepth t.sq v req (omega (arith, n.1)))
            ∙ append-snoc (contents t.qdepth t.sq) (some req)
                (map (λ x. some x) (take (sq_room t') reqs))
            ∙ ap (λ k. contents t.qdepth t.sq ++ map (λ x. some x) (take k (req ∷ reqs)))
                (sq_room-enter req t v n.1);
        answer =
            rest.answer
            ∙ ap (λ b. if b then pos 0 else negsuc 0)
                (more_room (length reqs) (sq_room t') (sq_room t) (sq_room-enter req t v n.1));
        ring = rest.ring;
        others = rest.others;
      })
]

-- The two queues of a task that the pool gives have 1024 slots each. With a depth of fewer than
-- 1024 the task gets two empty rings of one slot more than the depth, and with any other depth
-- there is no task.
pub alloc_task_lem :
    (qdepth : ℕ) (pooled : Task)
    → length pooled.sq.slots ≡ max_request
    → length pooled.cq.slots ≡ max_request
    → ((qdepth < max_request)
        × (t : Task) × (alloc_task qdepth pooled ≡ some t)
        × (t.qdepth ≡ qdepth + 1)
        × IsRing t.qdepth t.sq
        × IsRing t.qdepth t.cq
        × (contents t.qdepth t.sq ≡ [])
        × (contents t.qdepth t.cq ≡ []))
      ⊎ (max_request ≤ qdepth) × (alloc_task qdepth pooled ≡ none)
unfolding alloc_task size
alloc_task_lem qdepth pooled s c = elim (lt-cases max_request (qdepth + 1)) [
  | inl l ↦ inr (omega (arith, l.1), rw l.0 refl)
  | inr g ↦ inl (
    omega (arith, g.1),
    _,
    rw g.0 refl,
    refl,
    fresh pooled.sq s g.1,
    fresh pooled.cq c g.1,
    refl,
    refl,
  )
]
  where
    fresh :
        (r : Ring)
        → length r.slots ≡ max_request
        → qdepth + 1 ≤ max_request
        → IsRing
            (qdepth + 1)
            (record { slots = replicate qdepth none ++ drop qdepth r.slots; head = 0; tail = 0 })
    fresh r e k = record {
      head_in = omega arith;
      tail_in = omega arith;
      slots_enough = omega (
        arith,
        length-append (replicate qdepth none) (drop qdepth r.slots),
        length-replicate {A = Option ℕ} qdepth none,
        length-drop qdepth r.slots,
      );
    }
