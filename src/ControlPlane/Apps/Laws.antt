-- ===== src/ControlPlane/Apps/Laws.antt =====
-- What registration and removal do to the tables.
use nvfuse.Prelude.{
  ℕ, ◌*◌, ◌%◌, ◌^◌, ◌<◌, ◌≡◌, ◌≢◌, refl, ap, ◌∙◌, false, arith, List, length, set, leb, ◌||◌,
  if◌then◌else◌, length-set, get_or-set_self, ◌+◌,
}
use nvfuse.Prelude.Int.{ℤ, pos, negsuc}
use nvfuse.Run.{ok}
use nvfuse.ControlPlane.State.{unlocked, ControlPlane, IsValid, row}
use nvfuse.ControlPlane.Log.Storage.{Storage}
use nvfuse.ControlPlane.Alloc.Defs.{container_new_alloc, container_alloc}
use nvfuse.ControlPlane.Alloc.New.{Granted, container_alloc-new, container_alloc-none}
use nvfuse.ControlPlane.Apps.Defs.{
  num_cores, name_size, AppNode, AppTable, zero_node, node, set_node, Directories,
}
use nvfuse.ControlPlane.Apps.Ops.{
  Primary, copy_name, is_invalid_core, is_negative, app_manage_table_add,
}

-- A core that has a node of its own.
pub record IsApp (chan_id : ℕ) (at : AppTable) : Type 0 where
  pub not_primary : chan_id ≢ 0
  pub in_table : chan_id < num_cores
  pub all_nodes : length at.app_manage_table ≡ num_cores

-- The node of a registered application.
abbrev pub registered : (chan_id root : ℕ) → List ℕ → AppNode → AppNode
registered chan_id root name old = record old {
  channel_id = chan_id;
  name = copy_name name old.name;
  root_bg_id = root;
}

module _ (st : Storage) (dirs : Directories st) (inodes_per_bg : ℕ) where
  open st use {Files}
  open dirs use {exists, mkdir}

  valid_core : (chan_id : ℕ) → chan_id ≢ 0 → chan_id < num_cores → is_invalid_core chan_id ≡ false
  valid_core chan_id nz h = ground arith

  fits : (a b : ℕ) → a < num_cores → b < name_size → (leb num_cores a || leb name_size b) ≡ false
  fits a b h k = ground arith

  -- The table with the node of a new application.
  with_node : (chan_id root : ℕ) → List ℕ → AppTable → AppTable
  with_node chan_id root name at =
      let n : AppNode = record (node at chan_id) {
        channel_id = chan_id;
        name = copy_name name (node at chan_id).name;
      } in
      set_node (set_node at chan_id n) chan_id (record n { root_bg_id = root })

  add-made :
      (chan_id root : ℕ) (name : List ℕ) (p : Primary) (cp' : ControlPlane) (fs fs1 fs2 : Files)
      (res : ℤ)
      → IsApp chan_id p.apps
      → length name < name_size
      → exists fs name ≡ false
      → container_alloc st chan_id container_new_alloc unlocked p.cp fs ≡ ok (cp', fs1, root)
      → mkdir fs1 ((root * inodes_per_bg) % 2 ^ 32) name ≡ (fs2, res)
      → app_manage_table_add st dirs inodes_per_bg chan_id name p fs
        ≡ ok (
          record {
            cp = cp';
            apps = with_node chan_id root name p.apps;
            last_allocated_ino = if is_negative res then (root * inodes_per_bg) % 2 ^ 32 else 0;
          },
          fs2,
          if is_negative res then res else pos 0,
        )
  unfolding app_manage_table_add with_node
  add-made chan_id root name p cp' fs fs1 fs2 (pos k) a l x c m = rw (
    valid_core chan_id (a.not_primary) (a.in_table),
    fits chan_id (length name) (a.in_table) l,
    x,
    c,
    m,
  )
  add-made chan_id root name p cp' fs fs1 fs2 (negsuc k) a l x c m = rw (
    valid_core chan_id (a.not_primary) (a.in_table),
    fits chan_id (length name) (a.in_table) l,
    x,
    c,
    m,
  )

  node-with_node :
      (chan_id root : ℕ) (name : List ℕ) (at : AppTable)
      → IsApp chan_id at
      → node (with_node chan_id root name at) chan_id
        ≡ registered chan_id root name (node at chan_id)
  unfolding with_node
  node-with_node chan_id root name at a =
      get_or-set_self (set at.app_manage_table chan_id _) chan_id _ zero_node (
        omega (
          arith,
          a.in_table,
          a.all_nodes,
          length-set at.app_manage_table chan_id (record (node at chan_id) {
            channel_id = chan_id;
            name = copy_name name (node at chan_id).name;
          }),
        ))

  -- The registration of an application whose directory is not there yet, with a name that fits, on a
  -- core other than 0 and below the number of nodes, in a valid state with a free container. A container
  -- without an owner and unlocked becomes the core's own, the number of free containers falls by one,
  -- the other rows stay, the state is valid, and the node of the core has the container and the name.
  -- The answer is 0, or the error of mkdir, and then the hint for the next inode is not taken back.
  pub app_manage_table_add-Granted :
      (chan_id : ℕ) (name : List ℕ) (p : Primary) (fs : Files)
      → IsApp chan_id p.apps
      → length name < name_size
      → exists fs name ≡ false
      → IsValid p.cp
      → p.cp.free_containers ≢ 0
      → (root : ℕ) × (p' : Primary) × (fs1 : Files) × (let res =
            (mkdir fs1 ((root * inodes_per_bg) % 2 ^ 32) name).1 in
          (app_manage_table_add st dirs inodes_per_bg chan_id name p fs
            ≡ ok (
              p',
              (mkdir fs1 ((root * inodes_per_bg) % 2 ^ 32) name).0,
              if is_negative res then res else pos 0,
            ))
          × (p'.last_allocated_ino
              ≡ (if is_negative res then (root * inodes_per_bg) % 2 ^ 32 else 0)))
        × ((row p.cp root).owner_core_id ≡ 0)
        × Granted p.cp p'.cp root chan_id unlocked
        × (p'.cp.free_containers + 1 ≡ p.cp.free_containers)
        × IsValid p'.cp
        × (node p'.apps chan_id ≡ registered chan_id root name (node p.apps chan_id))
  app_manage_table_add-Granted chan_id name p fs a l x v free =
      let (root, cp', fs1, e, o, g, less, v') =
        container_alloc-new st p.cp fs chan_id unlocked v (a.not_primary) free in
      (
        root,
        _,
        fs1,
        (add-made chan_id root name p cp' fs fs1 _ _ a l x e refl, refl),
        o,
        g,
        less,
        v',
        node-with_node chan_id root name p.apps a,
      )

  -- Where no container is left, the registration of an application whose directory mkdir can make
  -- succeeds all the same, with the primary's own container 0 as the application's.
  pub app_manage_table_add-full :
      (chan_id : ℕ) (name : List ℕ) (p : Primary) (fs fs' : Files) (res : ℕ)
      → IsApp chan_id p.apps
      → length name < name_size
      → exists fs name ≡ false
      → p.cp.free_containers ≡ 0
      → mkdir fs 0 name ≡ (fs', pos res)
      → (p' : Primary) × (app_manage_table_add st dirs inodes_per_bg chan_id name p fs
          ≡ ok (p', fs', pos 0))
        × (p'.cp ≡ p.cp)
        × ((node p'.apps chan_id).root_bg_id ≡ 0)
  app_manage_table_add-full chan_id name p fs fs' res a l x z m = (
    _,
    add-made chan_id 0 name p p.cp fs fs fs' (pos res) a l x
        (container_alloc-none st p.cp fs chan_id unlocked (a.not_primary) z)
        (ap (λ h. mkdir fs h name) (omega arith) ∙ m),
    refl,
    ap (λ n. n.root_bg_id) (node-with_node chan_id 0 name p.apps a),
  )
