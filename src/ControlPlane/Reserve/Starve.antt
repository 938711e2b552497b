-- ===== src/ControlPlane/Reserve/Starve.antt =====
-- A reservation does not ask who owns the container. One on a free container keeps it out of the
-- search for a new container, whose loop then may find nothing to stop at.
use nvfuse.Prelude.{
  ℕ, ◌<◌, ◌≤◌, ◌≡◌, ◌≢◌, ap, ◌∙◌, inl, inr, false, none, arith, set, eq-cases, get_or-set_self,
  get_or-set_ne, length-set,
}
use nvfuse.Prelude.Int.{pos}
use nvfuse.Run.{ok, hang}
use nvfuse.Scan.{scan-hopeless}
use nvfuse.ControlPlane.State.{
  unlocked, write_locked, Reservation, zero_row, ControlPlane, inc32, row, set_row, IsValid,
  count_free, count_free-set, count_free_zero, unowned-zero, unowned-ne,
}
use nvfuse.ControlPlane.Alloc.Defs.{available, search_from_last, alloc_new}
use nvfuse.ControlPlane.Alloc.New.{search_from_last_lem}
use nvfuse.ControlPlane.Reserve.Defs.{resv_write_lock, reservation_acquire}

hang_of_search :
    (cp : ControlPlane) (core_id status : ℕ)
    → cp.free_containers ≢ 0
    → search_from_last cp 0 ≡ ok none
    → alloc_new core_id status cp ≡ hang
unfolding alloc_new
hang_of_search cp core_id status ne s = ground arith

-- No number of further rounds helps a search that passes no row.
alloc_new-hang :
    (cp : ControlPlane) (core_id status : ℕ)
    → 1 ≤ cp.nr_containers
    → cp.free_containers ≢ 0
    → ((j : ℕ) → j < cp.nr_containers → available cp 0 j ≡ false)
    → alloc_new core_id status cp ≡ hang
alloc_new-hang cp core_id status h ne f = hang_of_search cp core_id status ne (
    search_from_last_lem cp 0 h
    ∙ ap (λ o. ok o)
        (scan-hopeless (available cp 0) cp.nr_containers cp.nr_containers _ (omega arith) f))

-- The state after a write lock on container `id`.
abbrev write_lock : ℕ → ControlPlane → ControlPlane
write_lock id cp =
    set_row cp id
      (record (row cp id) { status = write_locked; ref_count = inc32 (row cp id).ref_count })

write_lock_lem :
    (cp : ControlPlane) (id : ℕ)
    → id < cp.nr_containers
    → (row cp id).status ≡ unlocked
    → reservation_acquire id resv_write_lock cp ≡ ok (write_lock id cp, pos 0)
unfolding reservation_acquire
write_lock_lem cp id h u = ground arith

module _ (cp : ControlPlane) (id : ℕ) (v : IsValid cp) (one : cp.free_containers ≡ 1) where
  -- Where one container is free, no other is.
  only_free :
      (j : ℕ)
      → id < cp.nr_containers
      → (row cp id).owner_core_id ≡ 0
      → j < cp.nr_containers
      → id ≢ j
      → (row cp j).owner_core_id ≢ 0
  only_free j hi o hj ne =
      let taken : Reservation = record { owner_core_id = 1; status = 0; ref_count = 0 } in
      let t = cp.reservation_table in
      let zero_left : count_free (set t id taken) ≡ 0 = omega (
        arith,
        one,
        v.counted,
        unowned-zero (row cp id) o,
        unowned-ne taken (omega arith),
        count_free-set t id taken (omega (arith, v.rows)),
      ) in
      λ e.
        count_free_zero (set t id taken) j (omega (arith, v.rows, length-set t id taken)) zero_left
          (ap Reservation.owner_core_id (get_or-set_ne t id j taken zero_row ne) ∙ e)

  blocked :
      (j : ℕ)
      → id < cp.nr_containers
      → (row cp id).owner_core_id ≡ 0
      → j < cp.nr_containers
      → available (write_lock id cp) 0 j ≡ false
  blocked j hi o hj = elim (eq-cases id j) [
    | inl e ↦ rw (← e.1) (
        rw (get_or-set_self cp.reservation_table id _ zero_row (omega (arith, v.rows)))
          (ground arith))
    | inr n ↦
        rw (get_or-set_ne cp.reservation_table id j _ zero_row n.1)
          (ground (arith, only_free j hi o hj n.1))
  ]

  -- A write lock is granted on a container that nobody owns. Where that was the only free one, the
  -- next request for a new container, of any core, never returns, though the count says that one
  -- is free.
  pub acquire_unowned-hang :
      (core_id status : ℕ)
      → id < cp.nr_containers
      → (row cp id).owner_core_id ≡ 0
      → (cp' : ControlPlane) × (reservation_acquire id resv_write_lock cp ≡ ok (cp', pos 0))
        × (cp'.free_containers ≡ 1)
        × (alloc_new core_id status cp' ≡ hang)
  acquire_unowned-hang core_id status hi o = (
    write_lock id cp,
    write_lock_lem cp id hi (v.free_unlocked id hi o),
    one,
    alloc_new-hang (write_lock id cp) core_id status (v.some_container) (omega (arith, one))
        (λ j hj. blocked j hi o hj),
  )
