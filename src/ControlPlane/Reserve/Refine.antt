-- ===== src/ControlPlane/Reserve/Refine.antt =====
-- The reservations are a lock for readers and writers.
use nvfuse.Prelude.{ℕ, zero, suc, ◌+◌, ◌^◌, ◌<◌, ◌≡◌, refl, Option, none, some, arith}
use nvfuse.Prelude.Int.{ℤ, pos, negsuc}
use nvfuse.Run.{Run, ok}
use nvfuse.ControlPlane.State.{
  unlocked, write_locked, read_locked, Reservation, ControlPlane, row, set_row,
}
use nvfuse.ControlPlane.Reserve.Defs.{
  ReservationType, resv_read_lock, resv_write_lock, invalid, reservation_acquire,
  reservation_release,
}

-- What a container's lock can be: free, held by `n + 1` readers, or by one writer.
pub data Lock : Type 0 where
  free writer : Lock
  readers : ℕ → Lock

-- The row that stands for a lock, for a container of `owner`.
abbrev pub row_of : ℕ → Lock → Reservation
row_of owner free = record { owner_core_id = owner; status = unlocked; ref_count = 0 }
row_of owner writer = record { owner_core_id = owner; status = write_locked; ref_count = 1 }
row_of owner (readers n) = record { owner_core_id = owner; status = read_locked; ref_count = n + 1 }

-- The lock's own rules; `none` is a refusal.
abbrev pub spec_acquire : ReservationType → Lock → Option Lock
spec_acquire resv_read_lock free = some (readers 0)
spec_acquire resv_read_lock (readers n) = some (readers (n + 1))
spec_acquire resv_read_lock writer = none
spec_acquire resv_write_lock free = some writer
spec_acquire resv_write_lock writer = none
spec_acquire resv_write_lock (readers n) = none
spec_acquire invalid l = none

abbrev pub spec_release : Lock → Option Lock
spec_release free = none
spec_release writer = some free
spec_release (readers zero) = some free
spec_release (readers (suc n)) = some (readers n)

-- The reader count of a lock, which the row keeps in 32 bits.
abbrev pub count_of : Lock → ℕ
count_of free = 0
count_of writer = 1
count_of (readers n) = n + 1

-- The answer of the lock as the code gives it: 0 and the new row, or -1 and no change.
abbrev pub answer : ControlPlane → ℕ → ℕ → Option Lock → Run (ControlPlane × ℤ)
answer cp id owner none = ok (cp, negsuc 0)
answer cp id owner (some l) = ok (set_row cp id (row_of owner l), pos 0)

-- On a container of the table whose row stands for a lock, an acquisition of any type does what
-- the lock's rules say, as long as the reader count fits 32 bits.
pub reservation_acquire_refines :
    (id owner : ℕ) (type : ReservationType) (l : Lock) (cp : ControlPlane)
    → id < cp.nr_containers
    → row cp id ≡ row_of owner l
    → count_of l + 1 < 2 ^ 32
    → reservation_acquire id type cp ≡ answer cp id owner (spec_acquire type l)
unfolding reservation_acquire
reservation_acquire_refines id owner resv_read_lock free cp h e k = rw e (ground arith)
reservation_acquire_refines id owner resv_read_lock writer cp h e k = rw e (ground arith)
reservation_acquire_refines id owner resv_read_lock (readers n) cp h e k = rw e (ground arith)
reservation_acquire_refines id owner resv_write_lock free cp h e k = rw e (ground arith)
reservation_acquire_refines id owner resv_write_lock writer cp h e k = rw e (ground arith)
reservation_acquire_refines id owner resv_write_lock (readers n) cp h e k = rw e (ground arith)
reservation_acquire_refines id owner invalid l cp h e k = refl

-- On a container of the table whose row stands for a lock, a release does what the lock's rules say,
-- as long as the count fits 32 bits; no assertion fails.
pub reservation_release_refines :
    (id owner : ℕ) (l : Lock) (cp : ControlPlane)
    → id < cp.nr_containers
    → row cp id ≡ row_of owner l
    → count_of l < 2 ^ 32
    → reservation_release id cp ≡ answer cp id owner (spec_release l)
unfolding reservation_release
reservation_release_refines id owner free cp h e k = rw e (ground arith)
reservation_release_refines id owner writer cp h e k = rw e (ground arith)
reservation_release_refines id owner (readers zero) cp h e k = rw e (ground arith)
reservation_release_refines id owner (readers (suc n)) cp h e k = rw e (ground arith)
