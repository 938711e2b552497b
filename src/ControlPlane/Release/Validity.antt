-- ===== src/ControlPlane/Release/Validity.antt =====
-- The release of all containers of a core keeps the state valid, whatever it comes to.
use nvfuse.Prelude.{
  ℕ, zero, suc, ◌+◌, ◌-◌, ◌<◌, ◌≤◌, ◌≡◌, ◌≢◌, refl, sym, ◌∙◌, inl, inr, Bool, true, false, arith,
  if◌then◌else◌, eq-cases,
}
use nvfuse.ControlPlane.State.{ControlPlane, inc32, row, unowned, IsValid, set-IsValid, unowned-ne}
use nvfuse.ControlPlane.Release.One.{inc32-free}
use nvfuse.ControlPlane.Release.Defs.{
  unlocked_row, release_row, release_from, container_release_by_coreid,
}
use nvfuse.ControlPlane.Release.ByCore.{step-skip, step-release, step-busy}

module _ (core_id : ℕ) (clear_owner : Bool) where
  released-IsValid :
      (id : ℕ) (cp : ControlPlane)
      → IsValid cp
      → core_id ≢ 0
      → id ≢ 0
      → id < cp.nr_containers
      → (row cp id).owner_core_id ≡ core_id
      → IsValid (release_row clear_owner id cp)
  released-IsValid id cp v nz ne hi o =
      set-IsValid id (unlocked_row clear_owner (row cp id)) _ _ v ne hi (λ _. refl)
        (moved clear_owner) (v.last_in)
    where
      was : unowned (row cp id) ≡ 0
      was = unowned-ne (row cp id) (λ e. nz (sym o ∙ e))

      moved :
          (b : Bool)
          → (if b then inc32 cp.free_containers else cp.free_containers) + unowned (row cp id)
            ≡ cp.free_containers + unowned (unlocked_row b (row cp id))
      moved true = omega (arith, was, inc32-free cp v)
      moved false = refl

  release_from-IsValid :
      (rounds id : ℕ) (cp : ControlPlane)
      → IsValid cp
      → core_id ≢ 0
      → id ≢ 0
      → id + rounds ≤ cp.nr_containers
      → IsValid (release_from core_id clear_owner rounds id cp).0
  unfolding release_from
  release_from-IsValid zero id cp v nz ne h = v
  release_from-IsValid (suc rounds) id cp v nz ne h =
      elim (eq-cases (row cp id).owner_core_id core_id) [
        | inr o ↦
            rw (step-skip core_id clear_owner rounds id cp o.1)
              (release_from-IsValid rounds (id + 1) cp v nz (omega arith) (omega arith))
        | inl o ↦ elim (eq-cases (row cp id).ref_count 0) [
          | inl z ↦ rw (step-release core_id clear_owner rounds id cp o.1 z.1) (
              release_from-IsValid rounds (id + 1) (release_row clear_owner id cp)
                (released-IsValid id cp v nz ne (omega arith) o.1) nz (omega arith) (omega arith))
          | inr z ↦ rw (step-busy core_id clear_owner rounds id cp o.1 z.1) v
        ]
      ]

  -- For a core other than 0, the release of all its containers by
  -- nvfuse_control_plane_container_release_by_coreid() in a valid state leaves a valid state whatever
  -- the outcome, also where a container in use stops the loop half-way.
  pub container_release_by_coreid-IsValid :
      (cp : ControlPlane)
      → IsValid cp
      → core_id ≢ 0
      → IsValid (container_release_by_coreid core_id clear_owner cp).0
  unfolding container_release_by_coreid
  container_release_by_coreid-IsValid cp v nz =
      release_from-IsValid (cp.nr_containers - 1) 1 cp v nz (omega arith)
        (omega (arith, v.some_container))
