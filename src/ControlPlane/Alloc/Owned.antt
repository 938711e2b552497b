-- ===== src/ControlPlane/Alloc/Owned.antt =====
-- A container that the core owns already: nvfuse_control_plane_container_alloc() with
-- CONTAINER_ALLOCATED_ALLOC.
use nvfuse.Prelude.{
  ℕ, ◌+◌, ◌%◌, ◌<◌, ◌≡◌, ◌≢◌, refl, sym, ap, ◌∙◌, ◌⊎◌, inl, inr, none, some, true, false, arith,
  ◌≤◌, get_or-beyond, lt-cases, Option-cases,
}
use nvfuse.Run.{ok}
use nvfuse.Scan.{scan, scan_sound, scan-none}
use nvfuse.ControlPlane.State.{
  unlocked, zero_row, ControlPlane, row, IsValid, set-IsValid, unowned-ne,
}
use nvfuse.ControlPlane.Alloc.Defs.{available, search_from_last, grant, alloc_owned}
use nvfuse.ControlPlane.Alloc.New.{Granted, available-parts, search_from_last_lem, Granted-grant}

alloc_owned-found :
    (cp : ControlPlane) (core_id status id : ℕ)
    → search_from_last cp core_id ≡ ok (some id)
    → id ≢ 0
    → (row cp id).owner_core_id ≡ core_id
    → (row cp id).status ≡ unlocked
    → alloc_owned core_id status cp ≡ ok (grant cp id core_id status, some id)
unfolding alloc_owned
alloc_owned-found cp core_id status id s nz o u = ground arith

alloc_owned-missed :
    (cp : ControlPlane) (core_id status : ℕ)
    → search_from_last cp core_id ≡ ok none
    → alloc_owned core_id status cp ≡ ok (cp, none)
unfolding alloc_owned
alloc_owned-missed cp core_id status s = ground arith

-- A container of the core itself was granted again.
pub record Regranted (cp : ControlPlane) (core_id status : ℕ) : Type 0 where
  pub id : ℕ
  pub cp' : ControlPlane
  pub result : alloc_owned core_id status cp ≡ ok (cp', some id)
  pub was_owner : (row cp id).owner_core_id ≡ core_id
  pub granted : Granted cp cp' id core_id status
  pub free_kept : cp'.free_containers ≡ cp.free_containers
  pub valid : IsValid cp'

-- The core has no container to be granted again.
pub record Refused (cp : ControlPlane) (core_id status : ℕ) : Type 0 where
  pub result : alloc_owned core_id status cp ≡ ok (cp, none)
  pub none_unlocked : (j : ℕ) → available cp core_id j ≡ false

module _ (cp : ControlPlane) (core_id status : ℕ) (v : IsValid cp) (nz : core_id ≢ 0) where
  start-lt : (cp.last_alloc_container_id + 1) % cp.nr_containers < cp.nr_containers
  start-lt = omega (arith, v.some_container)

  -- Outside the table there is no row of the core.
  beyond : (j : ℕ) → cp.nr_containers ≤ j → available cp core_id j ≡ false
  beyond j h =
      rw (get_or-beyond cp.reservation_table j zero_row (omega (arith, v.rows))) (ground arith)

  regrant :
      (id : ℕ)
      → core_id ≢ (row cp 0).owner_core_id
      → search_from_last cp core_id ≡ ok (some id)
      → available cp core_id id ≡ true
      → id < cp.nr_containers
      → Regranted cp core_id status
  regrant id other s a hi =
      let (o, u) = available-parts cp core_id id a in
      let ne : id ≢ 0 = λ e. other (sym (rw e at o)) in
      record {
        id = id;
        cp' = grant cp id core_id status;
        result = alloc_owned-found cp core_id status id s ne o u;
        was_owner = o;
        granted = Granted-grant cp id core_id status _ v ne hi u;
        free_kept = refl;
        valid =
            set-IsValid id _ _ id v ne hi (λ e. absurd (nz e))
              (omega (
                arith,
                unowned-ne (row cp id) (λ e. nz (sym o ∙ e)),
                unowned-ne (record { owner_core_id = core_id; status = status; ref_count = 0 }) nz,
              ))
              hi;
      }

  -- The search stops after one round, so a request in a valid state always ends, for a core that
  -- is neither 0 nor the owner of the first row. Either it grants an unlocked container of the
  -- core, in a valid state with the free count unchanged; or the core has no unlocked container,
  -- and the request is refused with nothing changed.
  pub alloc_owned_cases :
      core_id ≢ (row cp 0).owner_core_id → Regranted cp core_id status ⊎ Refused cp core_id status
  alloc_owned_cases other =
      let test = available cp core_id in
      let lem = search_from_last_lem cp core_id (v.some_container) in
      elim (Option-cases (
        scan test cp.nr_containers cp.nr_containers
          ((cp.last_alloc_container_id + 1) % cp.nr_containers))) [
            | inl e ↦ inr (record {
              result = alloc_owned-missed cp core_id status (lem ∙ ap (λ o. ok o) e);
              none_unlocked = λ j. elim (lt-cases j cp.nr_containers) [
                | inl l ↦ scan-none test cp.nr_containers _ j start-lt l.1 e
                | inr g ↦ beyond j g.1
              ];
            })
            | inr (id, e) ↦
                let q = scan_sound test cp.nr_containers cp.nr_containers _ start-lt e in
                inl (regrant id other (lem ∙ ap (λ o. ok o) e) (q.0) (q.1))
          ]
