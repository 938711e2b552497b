-- ===== src/ControlPlane/Reserve/Defs.antt =====
-- nvfuse_control_plane_reservation_acquire() and nvfuse_control_plane_reservation_release() of
-- nvfuse_control_plane.c. The container's number comes from a message and is not checked: outside
-- the table the access is a fault.
use nvfuse.Prelude.{ℕ, ◌||◌, ltb, ◌==◌, if◌then◌else◌}
use nvfuse.Prelude.Int.{ℤ, pos, negsuc}
use nvfuse.Run.{Run, ok, fault, ◌>>◌, assert}
use nvfuse.ControlPlane.State.{
  unlocked, write_locked, read_locked, ControlPlane, inc32, dec32, row, set_row,
}

-- enum reservation_type, and any other number
pub data ReservationType : Type 0 where
  resv_read_lock resv_write_lock invalid : ReservationType

-- UNLOCK, which the first test names, is 0 like UNLOCKED.
unfoldable pub reservation_acquire : ℕ → ReservationType → ControlPlane → Run (ControlPlane × ℤ)
reservation_acquire id type cp = elim type [
  | resv_write_lock ↦
      if ltb id cp.nr_containers
      then (if (row cp id).status == unlocked
          then ok (
            set_row cp id (record (row cp id) {
              status = write_locked;
              ref_count = inc32 (row cp id).ref_count;
            }),
            pos 0,
          )
          else ok (cp, negsuc 0))
      else fault
  | resv_read_lock ↦
      if ltb id cp.nr_containers
      then (if (row cp id).status == read_locked || (row cp id).status == unlocked
          then ok (
            set_row cp id (record (row cp id) {
              status = read_locked;
              ref_count = inc32 (row cp id).ref_count;
            }),
            pos 0,
          )
          else ok (cp, negsuc 0))
      else fault
  | invalid ↦ ok (cp, negsuc 0)
]

unfoldable pub reservation_release : ℕ → ControlPlane → Run (ControlPlane × ℤ)
reservation_release id cp =
    if ltb id cp.nr_containers
    then (let refs = dec32 (row cp id).ref_count in
        if (row cp id).status == write_locked
        then (do
          assert (refs == 0)
          ok (set_row cp id (record (row cp id) { status = unlocked; ref_count = refs }), pos 0))
        else if (row cp id).status == read_locked
        then ok (
          set_row cp id (record (row cp id) {
            status = if refs == 0 then unlocked else (row cp id).status;
            ref_count = refs;
          }),
          pos 0,
        )
        else ok (cp, negsuc 0))
    else fault
