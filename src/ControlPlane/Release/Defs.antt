-- ===== src/ControlPlane/Release/Defs.antt =====
-- nvfuse_control_plane_container_release() and nvfuse_control_plane_container_release_by_coreid() of
-- nvfuse_control_plane.c.
use nvfuse.Prelude.{ℕ, zero, suc, ◌+◌, ◌-◌, Bool, not, set, ltb, ◌==◌, if◌then◌else◌}
use nvfuse.Prelude.Int.{ℤ, pos, negsuc}
use nvfuse.Run.{Run, ok, fault}
use nvfuse.ControlPlane.State.{unlocked, Reservation, ControlPlane, inc32, row}
use nvfuse.ControlPlane.Log.Storage.{Storage}
use nvfuse.ControlPlane.Log.Defs.{store_container_table}

-- The row of a container that is given up.
abbrev pub released : Reservation
released = record { owner_core_id = 0; status = unlocked; ref_count = 0 }

module _ (st : Storage) where
  open st use {Files}

  -- The container's number comes from a message and is not checked: outside the table the access
  -- is a fault.
  unfoldable pub container_release :
      (core_id container_id : ℕ) → ControlPlane → Files → Run (ControlPlane × Files × ℤ)
  container_release core_id container_id cp fs =
      if ltb container_id cp.nr_containers
      then (if not ((row cp container_id).owner_core_id == core_id)
          then ok (cp, fs, negsuc 0)
          else if not ((row cp container_id).ref_count == 0)
          then ok (cp, fs, negsuc 0)
          else let cp' : ControlPlane = record cp {
            reservation_table = set cp.reservation_table container_id released;
            free_containers = inc32 cp.free_containers;
          } in
            let (cp2, fs2, _) = store_container_table st cp' fs in ok (cp2, fs2, pos 0))
      else fault

-- What the loop writes in a row of the core.
abbrev pub unlocked_row : Bool → Reservation → Reservation
unlocked_row clear_owner r = record {
  owner_core_id = if clear_owner then 0 else r.owner_core_id;
  status = unlocked;
  ref_count = 0;
}

abbrev pub release_row : Bool → ℕ → ControlPlane → ControlPlane
release_row clear_owner id cp = record cp {
  reservation_table = set cp.reservation_table id (unlocked_row clear_owner (row cp id));
  free_containers = if clear_owner then inc32 cp.free_containers else cp.free_containers;
}

-- The loop from container `id` on, over the `rounds` that are left. A container in use ends it at
-- once, with -1.
unfoldable pub release_from :
    (core_id : ℕ) → Bool → (rounds id : ℕ) → ControlPlane → ControlPlane × ℤ
release_from core_id clear_owner zero id cp = (cp, pos 0)
release_from core_id clear_owner (suc rounds) id cp =
    let skip = release_from core_id clear_owner rounds (id + 1) cp in
    let rest = release_from core_id clear_owner rounds (id + 1) (release_row clear_owner id cp) in
    if not ((row cp id).owner_core_id == core_id)
    then skip
    else if not ((row cp id).ref_count == 0)
    then (cp, negsuc 0)
    else rest

unfoldable pub container_release_by_coreid : ℕ → Bool → ControlPlane → ControlPlane × ℤ
unfolding release_from
container_release_by_coreid core_id clear_owner cp =
    release_from core_id clear_owner (cp.nr_containers - 1) 1 cp
