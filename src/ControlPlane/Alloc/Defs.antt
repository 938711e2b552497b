-- ===== src/ControlPlane/Alloc/Defs.antt =====
-- nvfuse_control_plane_container_alloc() of nvfuse_control_plane.c. Both search loops go round the
-- table from behind the last container given out. The first has no bound: where a whole round finds
-- nothing, the table does not change any more and the loop hangs. The second counts its tries.
use nvfuse.Prelude.{ℕ, ◌+◌, ◌%◌, Option, none, some, Bool, ◌&&◌, not, set, ◌==◌, if◌then◌else◌}
use nvfuse.Run.{Run, ok, fault, hang, ◌>>=◌, ◌>>◌, assert}
use nvfuse.Scan.{scan}
use nvfuse.ControlPlane.State.{unlocked, ControlPlane, dec32, row}
use nvfuse.ControlPlane.Log.Storage.{Storage}
use nvfuse.ControlPlane.Log.Defs.{store_container_table}

-- enum container_alloc_type; whatever is not CONTAINER_NEW_ALLOC is taken for the other.
pub data AllocType : Type 0 where
  container_new_alloc container_allocated_alloc : AllocType

-- The exit test of both loops: the row belongs to `core_id` and is unlocked.
abbrev pub available : ControlPlane → ℕ → ℕ → Bool
available cp core_id i = ((row cp i).owner_core_id == core_id) && ((row cp i).status == unlocked)

-- The loops from behind the last container, one round. `x % 0` is a fault.
unfoldable pub search_from_last : ControlPlane → ℕ → Run (Option ℕ)
search_from_last cp core_id =
    if cp.nr_containers == 0
    then fault
    else ok (
        scan (available cp core_id) cp.nr_containers cp.nr_containers
          ((cp.last_alloc_container_id + 1) % cp.nr_containers))

-- What is written for a container given out.
abbrev pub grant : ControlPlane → ℕ → ℕ → ℕ → ControlPlane
grant cp id core_id status = record cp {
  reservation_table =
      set cp.reservation_table id
        (record { owner_core_id = core_id; status = status; ref_count = 0 });
  last_alloc_container_id = id;
}

-- CONTAINER_NEW_ALLOC. `none` is the return of 0 that logs nothing.
unfoldable pub alloc_new : ℕ → ℕ → ControlPlane → Run (ControlPlane × Option ℕ)
unfolding search_from_last
alloc_new core_id status cp = if cp.free_containers == 0 then ok (cp, none) else do
  found ← search_from_last cp 0
  elim found [
    | none ↦ hang
    | some id ↦ do
      assert (not (id == 0))
      assert ((row cp id).owner_core_id == 0)
      assert ((row cp id).status == unlocked)
      ok (
        record (grant cp id core_id status) { free_containers = dec32 cp.free_containers },
        some id,
      )
  ]

-- CONTAINER_ALLOCATED_ALLOC
unfoldable pub alloc_owned : ℕ → ℕ → ControlPlane → Run (ControlPlane × Option ℕ)
unfolding search_from_last
alloc_owned core_id status cp = do
  found ← search_from_last cp core_id
  elim found [
    | none ↦ ok (cp, none)
    | some id ↦ do
      assert (not (id == 0))
      assert ((row cp id).owner_core_id == core_id)
      assert ((row cp id).status == unlocked)
      ok (grant cp id core_id status, some id)
  ]

module _ (st : Storage) where
  open st use {Files}

  -- nvfuse_control_plane_container_alloc()
  unfoldable pub container_alloc :
      ℕ → AllocType → ℕ → ControlPlane → Files → Run (ControlPlane × Files × ℕ)
  container_alloc core_id type status cp fs = do
    assert (not (core_id == 0))
    (cp', got) ← elim type [
      | container_new_alloc ↦ alloc_new core_id status cp
      | container_allocated_alloc ↦ alloc_owned core_id status cp
    ]
    elim got [
      | none ↦ ok (cp', fs, 0)
      | some id ↦ let (cp2, fs2, _) = store_container_table st cp' fs in ok (cp2, fs2, id)
    ]
