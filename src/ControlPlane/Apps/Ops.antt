-- ===== src/ControlPlane/Apps/Ops.antt =====
-- Registration and removal of an application, the log of the table, and the start and the end of the
-- control plane.
use nvfuse.Prelude.{
  ℕ, ◌+◌, ◌*◌, ◌%◌, ◌^◌, Bool, true, false, Option, List, [], ◌∷◌, ◌++◌, length, drop, replicate,
  ltb, leb, ◌==◌, ◌||◌, ◌&&◌, not, if◌then◌else◌,
}
use nvfuse.Prelude.Int.{ℤ, pos, negsuc}
use nvfuse.Run.{Run, ok, fault, ◌>>=◌}
use nvfuse.ControlPlane.State.{unlocked, Reservation, ControlPlane}
use nvfuse.ControlPlane.Init.{container_table_init}
use nvfuse.ControlPlane.Buffer.{buffer_init}
use nvfuse.ControlPlane.Log.Storage.{Storage}
use nvfuse.ControlPlane.Log.Defs.{Memory, store_table, load_container_table, store_container_table}
use nvfuse.ControlPlane.Alloc.Defs.{container_new_alloc, container_alloc}
use nvfuse.ControlPlane.Release.Defs.{container_release_by_coreid}
use nvfuse.ControlPlane.Apps.Defs.{
  num_cores, name_size, no_channel, AppNode, AppTable, node, set_node, app_table_image,
  app_manage_table_init, Directories,
}

-- What the primary process keeps: the two tables, and sb_last_allocated_ino.
pub record Primary : Type 0 where
  pub cp : ControlPlane
  pub apps : AppTable
  pub last_allocated_ino : ℕ

-- strcpy(node->name, name)
abbrev pub copy_name : List ℕ → List ℕ → List ℕ
copy_name name old = name ++ (0 ∷ drop (length name + 1) old)

-- channel_id == 0 || channel_id >= SPDK_NUM_CORES, on an s32
abbrev pub is_invalid_core : ℕ → Bool
is_invalid_core id = (id == 0) || (leb num_cores id && ltb id (2 ^ 31))

-- The string of a node's name.
unfoldable pub c_string : List ℕ → List ℕ
c_string [] = []
c_string (b ∷ bs) = if b == 0 then [] else b ∷ c_string bs

-- res < 0
abbrev pub is_negative : ℤ → Bool
is_negative (pos n) = false
is_negative (negsuc n) = true

module _ (st : Storage) (dirs : Directories st) where
  open st use {Files, check_flush_dirty}
  open dirs use {open_app_log, exists, mkdir, rmdir, format_container, force_flush}

  -- The same storage, but for the names of the files.
  abbrev pub app_storage : Storage
  app_storage = record st { open_file = open_app_log }

  -- nvfuse_store_app_table()
  unfoldable pub store_app_table : AppTable → Files → AppTable × Files × ℤ
  unfolding store_table
  store_app_table at fs =
      let (c, fs', ret) =
        store_table app_storage (app_table_image at) at.app_table_size at.app_log fs in
      (record at { app_log = c }, fs', ret)

  -- nvfuse_load_app_table(), on the table's memory
  unfoldable pub load_app_table : ℕ → Memory → Files → Memory × Files
  unfolding load_container_table
  load_app_table size m fs = load_container_table app_storage size m fs

  -- nvfuse_app_manage_table_add(). A core outside the table, which only a negative number is, and a
  -- name that is longer than the field, are faults.
  unfoldable pub app_manage_table_add :
      (inodes_per_bg channel_id : ℕ) → List ℕ → Primary → Files → Run (Primary × Files × ℤ)
  app_manage_table_add inodes_per_bg channel_id name p fs =
      if is_invalid_core channel_id
      then ok (p, fs, negsuc 0)
      else if leb num_cores channel_id || leb name_size (length name)
      then fault
      else (let n : AppNode = record (node p.apps channel_id) {
        channel_id = channel_id;
        name = copy_name name (node p.apps channel_id).name;
      } in
          let apps = set_node p.apps channel_id n in
          if exists fs name then ok (record p { apps = apps }, fs, pos 0) else do
            (cp, fs1, root) ← container_alloc st channel_id container_new_alloc unlocked p.cp fs
            let apps' = set_node apps channel_id (record n { root_bg_id = root })
            let hint = (root * inodes_per_bg) % 2 ^ 32
            let made = mkdir fs1 hint name
            if is_negative (made.1)
                then ok
                    (record { cp = cp; apps = apps'; last_allocated_ino = hint }, made.0, made.1)
                else ok (record { cp = cp; apps = apps'; last_allocated_ino = 0 }, made.0, pos 0))

  -- The loop over the containers that are the core's.
  unfoldable pub format_owned : (core_id : ℕ) → List Reservation → (id : ℕ) → Files → Files
  format_owned core_id [] id fs = fs
  format_owned core_id (r ∷ t) id fs =
      format_owned core_id t (id + 1)
        (if r.owner_core_id == core_id then check_flush_dirty (format_container fs id) else fs)

  -- nvfuse_destroy_containers_for_app_unregistration()
  unfoldable pub destroy_containers : (core_id : ℕ) → Primary → Files → Files × ℤ
  unfolding format_owned c_string
  destroy_containers core_id p fs =
      let (fs1, res) = rmdir fs (c_string (node p.apps core_id).name) in
      if is_negative res
      then (fs1, res)
      else (force_flush (format_owned core_id p.cp.reservation_table 0 fs1), pos 0)

  -- The tables are logged at the end of a removal.
  unfoldable pub log_tables : Primary → Files → Primary × Files × ℤ
  unfolding store_app_table
  log_tables p fs =
      let (cp, fs1, _) = store_container_table st p.cp fs in
      let (apps, fs2, _) = store_app_table p.apps fs1 in
      (record p { cp = cp; apps = apps }, fs2, pos 0)

  -- nvfuse_app_manage_table_remove()
  unfoldable pub app_manage_table_remove :
      (core_id : ℕ) → (destroy : ℕ) → Primary → Files → Run (Primary × Files × ℤ)
  unfolding destroy_containers log_tables
  app_manage_table_remove core_id destroy p fs =
      if is_invalid_core core_id
      then ok (p, fs, negsuc 0)
      else if leb num_cores core_id
      then fault
      else if not ((node p.apps core_id).channel_id == core_id)
      then ok (p, fs, negsuc 0)
      else if destroy == 1
      then (let fs1 = (destroy_containers core_id p fs).0 in
          ok (
            log_tables
              (record p {
                cp = (container_release_by_coreid core_id true p.cp).0;
                apps = set_node p.apps core_id (record (node p.apps core_id) {
                  channel_id = no_channel;
                  name = replicate name_size 0;
                  root_bg_id = 0;
                });
              })
              fs1))
      else ok (log_tables (record p { cp = (container_release_by_coreid core_id false p.cp).0 }) fs)

  -- nvfuse_control_plane_init() behind its first allocation: what the three steps return is only
  -- printed, but for the last.
  unfoldable pub control_plane_init :
      (memory : Option (ℕ → ℕ)) (nr_buffers : ℤ) (nr_bgs : ℕ) (allocated : Bool)
      → ControlPlane
      → Run (ControlPlane × AppTable × ℤ)
  unfolding app_manage_table_init buffer_init container_table_init
  control_plane_init memory nr_buffers nr_bgs allocated cp = do
    let apps = (app_manage_table_init memory).0
    let cp1 = (buffer_init nr_buffers cp).0
    (cp2, ret) ← container_table_init nr_bgs allocated cp1
    ok (cp2, apps, ret)

  -- nvfuse_control_plane_exit(), as far as files go
  unfoldable pub control_plane_exit : Primary → Files → Files
  unfolding store_app_table
  control_plane_exit p fs = (store_app_table p.apps (store_container_table st p.cp fs).1).1
