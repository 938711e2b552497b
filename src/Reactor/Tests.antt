-- ===== src/Reactor/Tests.antt =====
-- The theorems of the queues on a task with three slots in each.
use nvfuse.Prelude.{ℕ, ◌≤◌, ◌≡◌, refl, Option, none, some, List, [], ◌∷◌, replicate, arith, min}
use nvfuse.Run.{ok}
use nvfuse.Reactor.Defs.{
  max_request, Ring, Task, size, put_req, get_req, took, cq_get_reqs, submit_all,
}
use nvfuse.Reactor.Fifo.{IsRing, contents, push_job, pop_job, put_req_refines, get_req_refines}
use nvfuse.Reactor.Reap.{Took, Submitted, cq_get_reqs-took, submit_all-Submitted}

-- One job in the last slot.
abbrev one_job : Ring
one_job = record { slots = none ∷ none ∷ some 8 ∷ []; head = 0; tail = 2 }

-- Two jobs round the end.
abbrev full_ring : Ring
full_ring = record { slots = some 9 ∷ none ∷ some 8 ∷ []; head = 1; tail = 2 }

abbrev task : Task
task = record { qdepth = 3; sq = one_job; cq = full_ring }

one_job-IsRing : IsRing 3 one_job
one_job-IsRing = record { head_in = omega arith; tail_in = omega arith; slots_enough = omega arith }

full_ring-IsRing : IsRing 3 full_ring
full_ring-IsRing = record {
  head_in = omega arith;
  tail_in = omega arith;
  slots_enough = omega arith;
}

contents-full_ring : contents 3 full_ring ≡ some 8 ∷ some 9 ∷ []
unfolding size
contents-full_ring = refl

put_req_example :
    ((contents 3 (put_req 3 7 one_job).0, (put_req 3 7 one_job).1)
      ≡ push_job 2 7 (contents 3 one_job))
    × IsRing 3 (put_req 3 7 one_job).0
put_req_example = put_req_refines 3 one_job one_job-IsRing 7

get_req_example :
    ((contents 3 (get_req 3 full_ring).0, (get_req 3 full_ring).1) ≡ pop_job (contents 3 full_ring))
    × IsRing 3 (get_req 3 full_ring).0
get_req_example = get_req_refines 3 full_ring full_ring-IsRing

two_completed : 1 ≤ size 3 full_ring
unfolding size
two_completed = omega arith

cq_get_reqs_example :
    (r' : Ring) × (reqs : List (Option ℕ)) × (cq_get_reqs 1 3 task
      ≡ ok (took (record task { cq = r' }) reqs))
    × Took 3 (min 3 (size 3 full_ring)) full_ring r' reqs
cq_get_reqs_example =
    cq_get_reqs-took 1 3 task full_ring-IsRing (omega arith) (omega arith) two_completed

submit_all_example : Submitted (4 ∷ 5 ∷ []) task (submit_all (4 ∷ 5 ∷ []) task)
submit_all_example = submit_all-Submitted (4 ∷ 5 ∷ []) task one_job-IsRing

-- A task of the pool.
abbrev pooled : Task
pooled = record {
  qdepth = 0;
  sq = record { slots = replicate max_request (some 1); head = 3; tail = 4 };
  cq = record { slots = replicate max_request none; head = 0; tail = 0 };
}
