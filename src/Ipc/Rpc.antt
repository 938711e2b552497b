-- ===== src/Ipc/Rpc.antt =====
-- A request through the messages is a call of the control plane: what an application sends, the
-- server answers and the application reads.
use nvfuse.Prelude.{
  ℕ, ◌^◌, ◌<◌, ◌≡◌, ◌≢◌, ◌⊎◌, ap, ◌∙◌, true, false, Option, some, arith, get_or, set,
  get_or-set_self, length, length-set, ◌==◌,
}
use nvfuse.Prelude.Int.{ℤ, pos, negsuc}
use nvfuse.Run.{Run, ok, abort, ◌>>=◌}
use nvfuse.ControlPlane.State.{acquired, ControlPlane, row, zero_row, IsValid}
use nvfuse.ControlPlane.Log.Storage.{Storage}
use nvfuse.ControlPlane.Alloc.Defs.{container_alloc}
use nvfuse.ControlPlane.Alloc.New.{Granted, container_alloc-new}
use nvfuse.ControlPlane.Release.Defs.{container_release}
use nvfuse.ControlPlane.Release.One.{container_release-refused, container_release-owned}
use nvfuse.ControlPlane.Apps.Ops.{Primary}
use nvfuse.Ipc.Message.{
  Message, of_s32, to_s32, make_req, make_cpl, container_alloc_req, make_container_alloc_cpl,
  container_release_req, make_container_release_cpl,
}
use nvfuse.Ipc.Server.{Volume, alloc_type_of, primary_poll_core}
use nvfuse.Ipc.Client.{prepare, blank, send_msg, alloc_container, dealloc_container}

to_s32-of_s32 : (n : ℕ) → n < 2 ^ 31 → to_s32 (of_s32 (pos n)) ≡ pos n
to_s32-of_s32 n h = ground arith

nonzero_s32 : (n : ℕ) → 0 < n → n < 2 ^ 31 → (of_s32 (pos n) == 0) ≡ false
nonzero_s32 n h k = ground arith

module _ (st : Storage) (vol : Volume st) where
  open st use {Files}

  -- The server as the other end of the rings.
  abbrev pub primary_call : Message → Primary × Files → Run ((Primary × Files) × Option Message)
  primary_call msg s = primary_poll_core st vol msg (s.0) (s.1) >>= λ r. ok ((r.0, r.1), some (r.2))

  poll-alloc :
      (chan_id type id : ℕ) (p : Primary) (cp' : ControlPlane) (fs fs' : Files)
      → container_alloc st chan_id (alloc_type_of type) acquired p.cp fs ≡ ok (cp', fs', id)
      → primary_poll_core st vol (prepare container_alloc_req (set (blank chan_id) 2 type)) p fs
        ≡ ok (
          record p { cp = cp' },
          fs',
          make_container_alloc_cpl
              (pos id)
              (prepare container_alloc_req (set (blank chan_id) 2 type)),
        )
  unfolding primary_poll_core prepare make_req
  poll-alloc chan_id type id p cp' fs fs' e = rw e

  alloc_container-answer :
      (chan_id type id : ℕ) (p : Primary) (cp' : ControlPlane) (fs fs' : Files)
      → id < 2 ^ 31
      → container_alloc st chan_id (alloc_type_of type) acquired p.cp fs ≡ ok (cp', fs', id)
      → alloc_container primary_call chan_id true type (p, fs)
        ≡ ok ((record p { cp = cp' }, fs'), pos id)
  unfolding alloc_container send_msg make_cpl make_req
  alloc_container-answer chan_id type id p cp' fs fs' h e =
      rw (poll-alloc chan_id type id p cp' fs fs' e)
        (ap (λ n. ok ((record p { cp = cp' }, fs'), n)) (to_s32-of_s32 id h))

  -- An application that is not core 0 and asks the primary process for a new container gets one,
  -- where the primary's state is valid and a container is free: the number that it reads from the
  -- reply is that of a container that was free and is now its own, and the primary's state is valid.
  pub app-Granted :
      (chan_id : ℕ) (p : Primary) (fs : Files)
      → IsValid p.cp
      → chan_id ≢ 0
      → p.cp.free_containers ≢ 0
      → (id : ℕ) × (cp' : ControlPlane) × (fs' : Files) × (alloc_container primary_call chan_id true
            0
            (p, fs)
          ≡ ok ((record p { cp = cp' }, fs'), pos id))
        × ((row p.cp id).owner_core_id ≡ 0)
        × Granted p.cp cp' id chan_id acquired
        × IsValid cp'
  app-Granted chan_id p fs v nz free =
      let (id, cp', fs', e, was, g, _, v') =
        container_alloc-new st p.cp fs chan_id acquired v nz free in
      (
        id,
        cp',
        fs',
        alloc_container-answer chan_id 0 id p cp' fs fs' (omega (arith, g.in_range, v.int_range)) e,
        was,
        g,
        v',
      )

  poll-release :
      (chan_id id : ℕ) (ret : ℤ) (p : Primary) (cp' : ControlPlane) (fs fs' : Files)
      → container_release st chan_id id p.cp fs ≡ ok (cp', fs', ret)
      → primary_poll_core st vol (prepare container_release_req (set (blank chan_id) 2 id)) p fs
        ≡ ok (
          record p { cp = cp' },
          fs',
          make_container_release_cpl ret (prepare container_release_req (set (blank chan_id) 2 id)),
        )
  unfolding primary_poll_core prepare make_req
  poll-release chan_id id ret p cp' fs fs' e = rw e

  dealloc_container-owned :
      (chan_id id : ℕ) (p : Primary) (cp' : ControlPlane) (fs fs' : Files)
      → container_release st chan_id id p.cp fs ≡ ok (cp', fs', pos 0)
      → dealloc_container primary_call chan_id true id (p, fs)
        ≡ ok ((record p { cp = cp' }, fs'), pos 0)
  unfolding dealloc_container send_msg make_cpl make_req
  dealloc_container-owned chan_id id p cp' fs fs' e =
      rw (poll-release chan_id id (pos 0) p cp' fs fs' e)

  dealloc_container-denied :
      (chan_id id : ℕ) (p : Primary) (cp' : ControlPlane) (fs fs' : Files)
      → container_release st chan_id id p.cp fs ≡ ok (cp', fs', negsuc 0)
      → dealloc_container primary_call chan_id true id (p, fs) ≡ abort
  unfolding dealloc_container send_msg make_cpl make_req
  dealloc_container-denied chan_id id p cp' fs fs' e =
      rw (poll-release chan_id id (negsuc 0) p cp' fs fs' e)

  -- An application that gives up a container of the table that is another's, or one with references
  -- left, panics.
  pub app-refused :
      (chan_id id : ℕ) (p : Primary) (fs : Files)
      → id < p.cp.nr_containers
      → ((row p.cp id).owner_core_id ≢ chan_id) ⊎ ((row p.cp id).ref_count ≢ 0)
      → dealloc_container primary_call chan_id true id (p, fs) ≡ abort
  app-refused chan_id id p fs h d =
      dealloc_container-denied chan_id id p p.cp fs fs
        (container_release-refused st chan_id id p.cp fs h d)

  Granted-row :
      (cp cp' : ControlPlane) (id core_id status : ℕ)
      → IsValid cp
      → Granted cp cp' id core_id status
      → row cp' id ≡ record { owner_core_id = core_id; status = status; ref_count = 0 }
  Granted-row cp cp' id core_id status v g =
      ap (λ t. get_or t id zero_row) (g.table)
      ∙ get_or-set_self cp.reservation_table id _ zero_row (omega (arith, g.in_range, v.rows))

  Granted-lt :
      (cp cp' : ControlPlane) (id core_id status : ℕ)
      → IsValid cp
      → IsValid cp'
      → Granted cp cp' id core_id status
      → id < cp'.nr_containers
  Granted-lt cp cp' id core_id status v v' g = omega (
    arith,
    g.in_range,
    v.rows,
    v'.rows,
    ap length (g.table),
    length-set cp.reservation_table id
        (record { owner_core_id = core_id; status = status; ref_count = 0 }),
  )

  -- Where the primary's state is valid and a container is free, an application that is not core 0 is
  -- granted one and can give it back: both calls succeed, and leave the primary in a valid state with
  -- as many free containers as before.
  pub app_round_trip :
      (chan_id : ℕ) (p : Primary) (fs : Files)
      → IsValid p.cp
      → chan_id ≢ 0
      → p.cp.free_containers ≢ 0
      → (id : ℕ) × (p' p'' : Primary) × (fs' fs'' : Files) × (alloc_container primary_call chan_id
            true 0
            (p, fs)
          ≡ ok ((p', fs'), pos id))
        × (dealloc_container primary_call chan_id true id (p', fs') ≡ ok ((p'', fs''), pos 0))
        × (p''.cp.free_containers ≡ p.cp.free_containers)
        × IsValid p''.cp
  app_round_trip chan_id p fs v nz free =
      let (id, cp', fs', e, was, g, less, v') =
        container_alloc-new st p.cp fs chan_id acquired v nz free in
      let mine = Granted-row p.cp cp' id chan_id acquired v g in
      let (cp'', fs'', e', _, more, v'') =
        container_release-owned st chan_id id cp' fs' v' nz (g.not_reserved)
          (Granted-lt p.cp cp' id chan_id acquired v v' g) (ap (λ r. r.owner_core_id) mine)
          (ap (λ r. r.ref_count) mine) in
      (
        id,
        record p { cp = cp' },
        record p { cp = cp'' },
        fs',
        fs'',
        alloc_container-answer chan_id 0 id p cp' fs fs' (omega (arith, g.in_range, v.int_range)) e,
        dealloc_container-owned chan_id id (record p { cp = cp' }) cp'' fs' fs'' e',
        omega (arith, less, more),
        v'',
      )
