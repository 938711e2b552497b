-- ===== src/ControlPlane/Alloc/New.antt =====
-- A new container: what nvfuse_control_plane_container_alloc() gives, on every branch.
use nvfuse.Prelude.{ℕ, ◌+◌, ◌%◌, ◌≤◌, ◌<◌, ◌≡◌, ◌≢◌, refl, ap, ◌∙◌, some, true, arith, set}
use nvfuse.Run.{ok}
use nvfuse.Scan.{scan, scan_sound, scan_complete}
use nvfuse.ControlPlane.State.{
  unlocked, Reservation, ControlPlane, dec32, row, IsValid, set-IsValid, free-lt, dec32-add,
  unowned-zero, unowned-ne, count_free-witness,
}
use nvfuse.ControlPlane.Log.Storage.{Storage}
use nvfuse.ControlPlane.Log.Defs.{store_container_table}
use nvfuse.ControlPlane.Alloc.Defs.{
  container_new_alloc, available, search_from_last, grant, alloc_new, container_alloc,
}

-- What a grant of container `id` to `core_id` does to the table.
pub record Granted (cp cp' : ControlPlane) (id core_id status : ℕ) : Type 0 where
  pub in_range : id < cp.nr_containers
  pub not_reserved : id ≢ 0
  pub was_unlocked : (row cp id).status ≡ unlocked
  pub table :
      cp'.reservation_table
      ≡ set cp.reservation_table id
          (record { owner_core_id = core_id; status = status; ref_count = 0 })
  pub last : cp'.last_alloc_container_id ≡ id

pub available-parts :
    (cp : ControlPlane) (core_id i : ℕ)
    → available cp core_id i ≡ true
    → ((row cp i).owner_core_id ≡ core_id) × ((row cp i).status ≡ unlocked)
available-parts cp core_id i h = ground arith

pub available_of :
    (cp : ControlPlane) (core_id i : ℕ)
    → (row cp i).owner_core_id ≡ core_id
    → (row cp i).status ≡ unlocked
    → available cp core_id i ≡ true
available_of cp core_id i p q = ground arith

pub search_from_last_lem :
    (cp : ControlPlane) (core_id : ℕ)
    → 1 ≤ cp.nr_containers
    → search_from_last cp core_id
      ≡ ok (
          scan
            (available cp core_id)
            cp.nr_containers
            cp.nr_containers
            ((cp.last_alloc_container_id + 1) % cp.nr_containers))
unfolding search_from_last
search_from_last_lem cp core_id h = ground arith

pub Granted-grant :
    (cp : ControlPlane) (id core_id status free : ℕ)
    → IsValid cp
    → id ≢ 0
    → id < cp.nr_containers
    → (row cp id).status ≡ unlocked
    → Granted cp (record (grant cp id core_id status) { free_containers = free }) id core_id status
Granted-grant cp id core_id status free v ne hi u = record {
  in_range = hi;
  not_reserved = ne;
  was_unlocked = u;
  table = refl;
  last = refl;
}

-- While the count is positive the first loop ends, at a free container.
search_free :
    (cp : ControlPlane)
    → IsValid cp
    → cp.free_containers ≢ 0
    → (id : ℕ) × (search_from_last cp 0 ≡ ok (some id))
      × (available cp 0 id ≡ true)
      × (id < cp.nr_containers)
search_free cp v ne =
    let (i, hi, e) = count_free-witness cp.reservation_table (omega (arith, v.counted)) in
    let hi' : i < cp.nr_containers = omega (arith, v.rows) in
    let start : (cp.last_alloc_container_id + 1) % cp.nr_containers < cp.nr_containers =
      omega (arith, v.some_container) in
    let (id, s) =
      scan_complete (available cp 0) cp.nr_containers _ i start hi'
        (available_of cp 0 i e (v.free_unlocked i hi' e)) in
    let q = scan_sound (available cp 0) cp.nr_containers cp.nr_containers _ start s in
    (id, search_from_last_lem cp 0 (v.some_container) ∙ ap (λ o. ok o) s, q.0, q.1)

-- The first row has an owner, so the search for a free one does not stop there.
free-ne-zero : (cp : ControlPlane) (id : ℕ) → IsValid cp → (row cp id).owner_core_id ≡ 0 → id ≢ 0
free-ne-zero cp id v o e = v.reserved (rw e at o)

alloc_new_lem :
    (cp : ControlPlane) (core_id status id : ℕ)
    → cp.free_containers ≢ 0
    → search_from_last cp 0 ≡ ok (some id)
    → id ≢ 0
    → (row cp id).owner_core_id ≡ 0
    → (row cp id).status ≡ unlocked
    → alloc_new core_id status cp
      ≡ ok (
        record (grant cp id core_id status) { free_containers = dec32 cp.free_containers },
        some id,
      )
unfolding alloc_new
alloc_new_lem cp core_id status id ne s nz o u = ground arith

-- In a valid state with a free container, a core other than 0 is given one: no assertion fails and
-- the search ends. The container was free, the free count falls by one, the other rows stay, and
-- the state is valid again.
pub alloc_new-Granted :
    (cp : ControlPlane) (core_id status : ℕ)
    → IsValid cp
    → core_id ≢ 0
    → cp.free_containers ≢ 0
    → (id : ℕ) × (cp' : ControlPlane) × (alloc_new core_id status cp ≡ ok (cp', some id))
      × ((row cp id).owner_core_id ≡ 0)
      × Granted cp cp' id core_id status
      × (cp'.free_containers + 1 ≡ cp.free_containers)
      × IsValid cp'
alloc_new-Granted cp core_id status v nz ne =
    let (id, s, a, hi) = search_free cp v ne in
    let (o, u) = available-parts cp 0 id a in
    let id_ne : id ≢ 0 = free-ne-zero cp id v o in
    let less : dec32 cp.free_containers + 1 ≡ cp.free_containers =
      dec32-add cp.free_containers ne (omega (arith, free-lt cp v)) in
    let granted : Reservation = record {
      owner_core_id = core_id;
      status = status;
      ref_count = 0;
    } in
    (
      id,
      record (grant cp id core_id status) { free_containers = dec32 cp.free_containers },
      alloc_new_lem cp core_id status id ne s id_ne o u,
      o,
      Granted-grant cp id core_id status _ v id_ne hi u,
      less,
      set-IsValid id _ _ id v id_ne hi (λ e. absurd (nz e))
          (omega (arith, less, unowned-zero (row cp id) o, unowned-ne granted nz)) hi,
    )

module _ (st : Storage) where
  open st use {Files}

  -- Logging the table changes the cursor of the log alone.
  pub store-IsValid :
      (cp : ControlPlane) (fs : Files) → IsValid cp → IsValid (store_container_table st cp fs).0
  unfolding store_container_table
  store-IsValid cp fs v = record {
    some_container = v.some_container;
    int_range = v.int_range;
    rows = v.rows;
    reserved = v.reserved;
    free_unlocked = v.free_unlocked;
    counted = v.counted;
    last_in = v.last_in;
  }

  pub store-Granted :
      (cp cp' : ControlPlane) (fs : Files) (id core_id status : ℕ)
      → Granted cp cp' id core_id status
      → Granted cp (store_container_table st cp' fs).0 id core_id status
  unfolding store_container_table
  store-Granted cp cp' fs id core_id status g = record {
    in_range = g.in_range;
    not_reserved = g.not_reserved;
    was_unlocked = g.was_unlocked;
    table = g.table;
    last = g.last;
  }

  pub free-store :
      (cp : ControlPlane) (fs : Files)
      → (store_container_table st cp fs).0.free_containers ≡ cp.free_containers
  unfolding store_container_table
  free-store cp fs = refl

  -- With no free container the answer is 0, and neither the state nor a file changes.
  pub container_alloc-none :
      (cp : ControlPlane) (fs : Files) (core_id status : ℕ)
      → core_id ≢ 0
      → cp.free_containers ≡ 0
      → container_alloc st core_id container_new_alloc status cp fs ≡ ok (cp, fs, 0)
  unfolding container_alloc alloc_new
  container_alloc-none cp fs core_id status nz e = ground arith

  container_alloc-logs :
      (cp cp' : ControlPlane) (fs : Files) (core_id status id : ℕ)
      → core_id ≢ 0
      → alloc_new core_id status cp ≡ ok (cp', some id)
      → container_alloc st core_id container_new_alloc status cp fs
        ≡ ok ((store_container_table st cp' fs).0, (store_container_table st cp' fs).1, id)
  unfolding container_alloc
  container_alloc-logs cp cp' fs core_id status id nz e = ground arith

  -- A request for a new container, in a valid state with a free container and for a core other
  -- than 0, ends without a failed assertion and hands out a container that was free: that row is
  -- the core's, with the status asked for and no references, the other rows stay, the free count
  -- falls by one, and the state is valid after the table has been logged.
  pub container_alloc-new :
      (cp : ControlPlane) (fs : Files) (core_id status : ℕ)
      → IsValid cp
      → core_id ≢ 0
      → cp.free_containers ≢ 0
      → (id : ℕ) × (cp' : ControlPlane) × (fs' : Files) × (container_alloc st core_id
            container_new_alloc status cp fs
          ≡ ok (cp', fs', id))
        × ((row cp id).owner_core_id ≡ 0)
        × Granted cp cp' id core_id status
        × (cp'.free_containers + 1 ≡ cp.free_containers)
        × IsValid cp'
  container_alloc-new cp fs core_id status v nz ne =
      let (id, cp', e, o, g, less, v') = alloc_new-Granted cp core_id status v nz ne in
      (
        id,
        (store_container_table st cp' fs).0,
        (store_container_table st cp' fs).1,
        container_alloc-logs cp cp' fs core_id status id nz e,
        o,
        store-Granted cp cp' fs id core_id status g,
        omega (arith, free-store cp' fs, less),
        store-IsValid cp' fs v',
      )
