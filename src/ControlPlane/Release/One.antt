-- ===== src/ControlPlane/Release/One.antt =====
-- What the release of one container does, on every branch.
use nvfuse.Prelude.{ℕ, ◌+◌, ◌<◌, ◌≡◌, ◌≢◌, refl, sym, ◌∙◌, ◌⊎◌, arith, set}
use nvfuse.Prelude.Int.{pos, negsuc}
use nvfuse.Run.{ok}
use nvfuse.ControlPlane.State.{
  ControlPlane, inc32, row, IsValid, set-IsValid, free-lt, unowned-zero, unowned-ne,
}
use nvfuse.ControlPlane.Log.Storage.{Storage}
use nvfuse.ControlPlane.Log.Defs.{store_container_table}
use nvfuse.ControlPlane.Alloc.New.{store-IsValid, free-store}
use nvfuse.ControlPlane.Release.Defs.{released, container_release}

-- There is always an owned container that the free count leaves out: it does not wrap.
pub inc32-free :
    (cp : ControlPlane) → IsValid cp → inc32 cp.free_containers ≡ cp.free_containers + 1
inc32-free cp v = omega (arith, free-lt cp v)

module _ (st : Storage) where
  open st use {Files}

  -- A release of a container of another core, or of one with references left, is refused with -1,
  -- and nothing changes, files included.
  pub container_release-refused :
      (core_id id : ℕ) (cp : ControlPlane) (fs : Files)
      → id < cp.nr_containers
      → ((row cp id).owner_core_id ≢ core_id) ⊎ ((row cp id).ref_count ≢ 0)
      → container_release st core_id id cp fs ≡ ok (cp, fs, negsuc 0)
  unfolding container_release
  container_release-refused core_id id cp fs h d = ground arith

  release-result :
      (core_id id : ℕ) (cp cp' : ControlPlane) (fs : Files)
      → cp' ≡ record cp {
        reservation_table = set cp.reservation_table id released;
        free_containers = inc32 cp.free_containers;
      }
      → id < cp.nr_containers
      → (row cp id).owner_core_id ≡ core_id
      → (row cp id).ref_count ≡ 0
      → container_release st core_id id cp fs
        ≡ ok ((store_container_table st cp' fs).0, (store_container_table st cp' fs).1, pos 0)
  unfolding container_release
  release-result core_id id cp cp' fs e h o r = ground arith

  table-store :
      (cp : ControlPlane) (fs : Files)
      → (store_container_table st cp fs).0.reservation_table ≡ cp.reservation_table
  unfolding store_container_table
  table-store cp fs = refl

  -- A core other than 0 that gives up a container of its own, not the first and with no references,
  -- succeeds: that row alone changes, to a free one, the free count rises by one, and the
  -- state is valid.
  pub container_release-owned :
      (core_id id : ℕ) (cp : ControlPlane) (fs : Files)
      → IsValid cp
      → core_id ≢ 0
      → id ≢ 0
      → id < cp.nr_containers
      → (row cp id).owner_core_id ≡ core_id
      → (row cp id).ref_count ≡ 0
      → (cp' : ControlPlane) × (fs' : Files) × (container_release st core_id id cp fs
          ≡ ok (cp', fs', pos 0))
        × (cp'.reservation_table ≡ set cp.reservation_table id released)
        × (cp'.free_containers ≡ cp.free_containers + 1)
        × IsValid cp'
  container_release-owned core_id id cp fs v nz ne hi o r =
      let cp' : ControlPlane = record cp {
        reservation_table = set cp.reservation_table id released;
        free_containers = inc32 cp.free_containers;
      } in
      let more = inc32-free cp v in
      (
        (store_container_table st cp' fs).0,
        (store_container_table st cp' fs).1,
        release-result core_id id cp cp' fs refl hi o r,
        table-store cp' fs,
        free-store st cp' fs ∙ more,
        store-IsValid st cp' fs (
            set-IsValid id released _ cp.last_alloc_container_id v ne hi (λ _. refl)
              (omega (
                arith,
                more,
                unowned-ne (row cp id) (λ e. nz (sym o ∙ e)),
                unowned-zero released refl,
              ))
              (v.last_in)),
      )
