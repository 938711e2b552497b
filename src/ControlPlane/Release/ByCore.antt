-- ===== src/ControlPlane/Release/ByCore.antt =====
-- The release of all containers of a core against its specification on the rows.
use nvfuse.Prelude.{
  ℕ, suc, ◌+◌, ◌-◌, ◌≡◌, ◌≢◌, sym, ap, ◌∙◌, ◌⊎◌, inl, inr, Bool, true, false, ◌&&◌, ◌||◌, not,
  arith, List, [], ◌∷◌, ◌++◌, map, set, ◌==◌, if◌then◌else◌, eq-cases, length, get_or-middle,
  set-middle, append-snoc, length-snoc,
}
use nvfuse.Prelude.Int.{ℤ, pos, negsuc}
use nvfuse.ControlPlane.State.{Reservation, zero_row, ControlPlane, inc32, row, IsValid}
use nvfuse.ControlPlane.Release.Defs.{
  unlocked_row, release_row, release_from, container_release_by_coreid,
}

module _ (core_id : ℕ) (clear_owner : Bool) where
  -- The core's rows are unlocked, and its owner cleared where that is asked for.
  abbrev pub release_if_owned : Reservation → Reservation
  release_if_owned r = if r.owner_core_id == core_id then unlocked_row clear_owner r else r

  -- None of the rows is the core's and in use.
  unfoldable pub idle : List Reservation → Bool
  idle [] = true
  idle (r ∷ t) = (not (r.owner_core_id == core_id) || r.ref_count == 0) && idle t

  -- The free count as the loop moves it.
  unfoldable pub free_after : List Reservation → ℕ → ℕ
  free_after [] free = free
  free_after (r ∷ t) free =
      free_after t
        (if r.owner_core_id == core_id then (if clear_owner then inc32 free else free) else free)

  module _ (n id : ℕ) (cp : ControlPlane) where
    pub step-skip :
        (row cp id).owner_core_id ≢ core_id
        → release_from core_id clear_owner (suc n) id cp
          ≡ release_from core_id clear_owner n (id + 1) cp
    unfolding release_from
    step-skip ne = ground arith

    pub step-release :
        (row cp id).owner_core_id ≡ core_id
        → (row cp id).ref_count ≡ 0
        → release_from core_id clear_owner (suc n) id cp
          ≡ release_from core_id clear_owner n (id + 1) (release_row clear_owner id cp)
    unfolding release_from
    step-release o z = ground arith

    pub step-busy :
        (row cp id).owner_core_id ≡ core_id
        → (row cp id).ref_count ≢ 0
        → release_from core_id clear_owner (suc n) id cp ≡ (cp, negsuc 0)
    unfolding release_from
    step-busy o z = ground arith

  -- What a successful run leaves of a state.
  abbrev outcome : ControlPlane → List Reservation → ℕ → ControlPlane × ℤ
  outcome cp table free = (record cp { reservation_table = table; free_containers = free }, pos 0)

  idle-cons :
      (r : Reservation) (t : List Reservation)
      → idle (r ∷ t) ≡ true
      → (idle t ≡ true) × ((r.owner_core_id ≢ core_id) ⊎ (r.ref_count ≡ 0))
  unfolding idle
  idle-cons r t h = ground arith

  owned-row :
      (r : Reservation)
      → r.owner_core_id ≡ core_id
      → release_if_owned r ≡ unlocked_row clear_owner r
  owned-row r o = ground arith

  other-row : (r : Reservation) → r.owner_core_id ≢ core_id → release_if_owned r ≡ r
  other-row r o = ground arith

  free_after-owned :
      (r : Reservation) (t : List Reservation) (free : ℕ)
      → r.owner_core_id ≡ core_id
      → free_after (r ∷ t) free ≡ free_after t (if clear_owner then inc32 free else free)
  unfolding free_after
  free_after-owned r t free o = ground arith

  free_after-other :
      (r : Reservation) (t : List Reservation) (free : ℕ)
      → r.owner_core_id ≢ core_id
      → free_after (r ∷ t) free ≡ free_after t free
  unfolding free_after
  free_after-other r t free o = ground arith

  -- The loop from the row behind `pre`.
  abbrev loop_at : List Reservation → List Reservation → ControlPlane → ControlPlane × ℤ
  loop_at pre rest cp = release_from core_id clear_owner (length rest) (length pre) cp

  row-at :
      (pre rest : List Reservation) (r : Reservation) (cp : ControlPlane)
      → cp.reservation_table ≡ pre ++ r ∷ rest
      → row cp (length pre) ≡ r
  row-at pre rest r cp e = rw e (get_or-middle pre r rest zero_row)

  released-table :
      (pre rest : List Reservation) (r : Reservation) (cp : ControlPlane)
      → cp.reservation_table ≡ pre ++ r ∷ rest
      → set cp.reservation_table (length pre) (unlocked_row clear_owner (row cp (length pre)))
        ≡ (pre ++ unlocked_row clear_owner r ∷ []) ++ rest
  released-table pre rest r cp e = rw (
    row-at pre rest r cp e,
    e,
    set-middle pre r rest (unlocked_row clear_owner r),
    append-snoc pre (unlocked_row clear_owner r) rest,
  )

  -- Where no row of the core is in use, the loop rewrites exactly the core's rows and succeeds.
  release_from_lem :
      (rest pre : List Reservation) (cp : ControlPlane)
      → cp.reservation_table ≡ pre ++ rest
      → idle rest ≡ true
      → loop_at pre rest cp
        ≡ outcome cp (pre ++ map release_if_owned rest) (free_after rest cp.free_containers)
  unfolding release_from free_after
  release_from_lem [] pre cp e i = ap (λ t. outcome cp t cp.free_containers) e
  release_from_lem (r ∷ rest) pre cp e i =
      let at_r = row-at pre rest r cp e in
      let parts = idle-cons r rest i in
      let n = length rest in
      elim (eq-cases r.owner_core_id core_id) [
        | inl o ↦
            let r' = unlocked_row clear_owner r in
            let free' = if clear_owner then inc32 cp.free_containers else cp.free_containers in
            step-release n (length pre) cp (rw at_r (o.1)) (rw at_r (ground arith))
            ∙ ap
                (λ k.
                  release_from core_id clear_owner n k (release_row clear_owner (length pre) cp))
                (sym (length-snoc pre r'))
            ∙ release_from_lem rest (pre ++ r' ∷ []) (release_row clear_owner (length pre) cp)
                (released-table pre rest r cp e) parts.0
            ∙ ap (λ t. outcome cp t (free_after rest free')) (append-snoc pre r' _)
            ∙ ap (λ x. outcome cp (pre ++ x ∷ map release_if_owned rest) (free_after rest free'))
                (sym (owned-row r o.1))
            ∙ ap (outcome cp _) (sym (free_after-owned r rest cp.free_containers o.1))
        | inr o ↦
            let free' = free_after rest cp.free_containers in
            step-skip n (length pre) cp (rw at_r (o.1))
            ∙ ap (λ k. release_from core_id clear_owner n k cp) (sym (length-snoc pre r))
            ∙ release_from_lem rest (pre ++ r ∷ []) cp (e ∙ sym (append-snoc pre r rest)) parts.0
            ∙ ap (λ t. outcome cp t free') (append-snoc pre r _)
            ∙ ap (λ x. outcome cp (pre ++ x ∷ map release_if_owned rest) free')
                (sym (other-row r o.1))
            ∙ ap (outcome cp _) (sym (free_after-other r rest cp.free_containers o.1))
      ]

  busy-cons :
      (r : Reservation) (t : List Reservation)
      → idle (r ∷ t) ≡ false
      → r.owner_core_id ≢ core_id ⊎ (r.ref_count ≡ 0)
      → idle t ≡ false
  unfolding idle
  busy-cons r t h d = ground arith

  -- If a row of the core is in use, the loop comes to it and returns -1.
  release_from-busy :
      (rest pre : List Reservation) (cp : ControlPlane)
      → cp.reservation_table ≡ pre ++ rest
      → idle rest ≡ false
      → (loop_at pre rest cp).1 ≡ negsuc 0
  unfolding idle release_from
  release_from-busy [] pre cp e i = cc
  release_from-busy (r ∷ rest) pre cp e i =
      let at_r = row-at pre rest r cp e in
      let n = length rest in
      elim (eq-cases r.owner_core_id core_id) [
        | inr o ↦
            ap (λ x. x.1) (step-skip n (length pre) cp (rw at_r (o.1)))
            ∙ ap (λ k. (release_from core_id clear_owner n k cp).1) (sym (length-snoc pre r))
            ∙ release_from-busy rest (pre ++ r ∷ []) cp (e ∙ sym (append-snoc pre r rest))
                (busy-cons r rest i (inl o.1))
        | inl o ↦ elim (eq-cases r.ref_count 0) [
          | inl z ↦
              let r' = unlocked_row clear_owner r in
              let cp' = release_row clear_owner (length pre) cp in
              ap (λ x. x.1) (step-release n (length pre) cp (rw at_r (o.1)) (rw at_r (z.1)))
              ∙ ap (λ k. (release_from core_id clear_owner n k cp').1) (sym (length-snoc pre r'))
              ∙ release_from-busy rest (pre ++ r' ∷ []) cp' (released-table pre rest r cp e)
                  (busy-cons r rest i (inr z.1))
          | inr z ↦ ap (λ x. x.1) (step-busy n (length pre) cp (rw at_r (o.1)) (rw at_r (z.1)))
        ]
      ]

  rows-behind :
      (cp : ControlPlane) (r0 : Reservation) (rest : List Reservation)
      → IsValid cp
      → cp.reservation_table ≡ r0 ∷ rest
      → cp.nr_containers - 1 ≡ length rest
  rows-behind cp r0 rest v e = omega (arith, v.rows, ap length e)

  -- Where no container of the core has references, all but the first are gone through and the call
  -- returns 0: exactly the core's rows are unlocked, without references, and without an owner if
  -- that was asked for, and the free count moves once for each of them that loses its owner.
  pub container_release_by_coreid-idle :
      (cp : ControlPlane) (r0 : Reservation) (rest : List Reservation)
      → IsValid cp
      → cp.reservation_table ≡ r0 ∷ rest
      → idle rest ≡ true
      → container_release_by_coreid core_id clear_owner cp
        ≡ outcome cp (r0 ∷ map release_if_owned rest) (free_after rest cp.free_containers)
  unfolding container_release_by_coreid
  container_release_by_coreid-idle cp r0 rest v e i =
      ap (λ n. release_from core_id clear_owner n 1 cp) (rows-behind cp r0 rest v e)
      ∙ release_from_lem rest (r0 ∷ []) cp e i

  -- Where a container of the core has references, the call returns -1.
  pub container_release_by_coreid-busy :
      (cp : ControlPlane) (r0 : Reservation) (rest : List Reservation)
      → IsValid cp
      → cp.reservation_table ≡ r0 ∷ rest
      → idle rest ≡ false
      → (container_release_by_coreid core_id clear_owner cp).1 ≡ negsuc 0
  unfolding container_release_by_coreid
  container_release_by_coreid-busy cp r0 rest v e i =
      ap (λ n. (release_from core_id clear_owner n 1 cp).1) (rows-behind cp r0 rest v e)
      ∙ release_from-busy rest (r0 ∷ []) cp e i
