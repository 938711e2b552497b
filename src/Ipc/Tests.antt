-- ===== src/Ipc/Tests.antt =====
-- The exchange of messages and the registration of applications, on the control plane's small states.
use nvfuse.Prelude.{
  ℕ, ◌+◌, ◌*◌, ◌%◌, ◌^◌, ◌≡◌, refl, inr, true, false, some, arith, List, [], ◌∷◌, replicate, set,
  if◌then◌else◌,
}
use nvfuse.Prelude.Int.{pos}
use nvfuse.Run.{ok, abort}
use nvfuse.ControlPlane.State.{unlocked, ControlPlane, IsValid, row}
use nvfuse.ControlPlane.Alloc.New.{Granted}
use nvfuse.ControlPlane.Release.ByCore.{idle}
use nvfuse.ControlPlane.Apps.Defs.{no_channel, zero_node, AppTable, node, Directories}
use nvfuse.ControlPlane.Apps.Ops.{
  Primary, is_negative, app_manage_table_add, app_manage_table_remove,
}
use nvfuse.ControlPlane.Apps.Laws.{IsApp, registered, app_manage_table_add-Granted}
use nvfuse.ControlPlane.Apps.Removal.{count_owned, app_manage_table_remove-released}
use nvfuse.ControlPlane.Samples.{
  Disk, disk, no_files, own, first_row, free_row, four, four-IsValid, three, three-IsValid,
}
use nvfuse.Ipc.Message.{Message}
use nvfuse.Ipc.Server.{Volume}
use nvfuse.Ipc.Client.{alloc_container, dealloc_container}
use nvfuse.Ipc.Rpc.{primary_call, app-refused, app_round_trip}

-- Directories that no call makes or finds: the disk keeps the logs alone.
abbrev dirs : Directories disk
dirs = record {
  open_app_log = λ d n create. (d, some (10 + n));
  exists = λ d name. false;
  mkdir = λ d hint name. (d, pos 0);
  rmdir = λ d name. (d, pos 0);
  format_container = λ d id. d;
  force_flush = λ d. d;
}

abbrev volume : Volume disk
volume = record {
  dirs = dirs;
  superblock_copy = λ d name msg. (msg, pos 0);
  superblock_words = 20;
  inodes_per_bg = 1024;
}

-- Sixteen nodes, of which number 7 belongs to the application on core 7.
abbrev apps : AppTable
apps = record {
  app_manage_table =
      set (replicate 16 (record zero_node { channel_id = no_channel })) 7
        (record zero_node { channel_id = 7 });
  app_table_size = 4096;
  app_valid_count = 1;
  app_log = record { generation = 1; cur_log_file = 0; max_log_file = 2 };
}

abbrev primary : ControlPlane → Primary
primary cp = record { cp = cp; apps = apps; last_allocated_ino = 0 }

IsApp-9 : IsApp 9 apps
IsApp-9 = record { not_primary = omega arith; in_table = omega arith; all_nodes = refl }

IsApp-7 : IsApp 7 apps
IsApp-7 = record { not_primary = omega arith; in_table = omega arith; all_nodes = refl }

-- The name of an application, without its final zero.
abbrev name : List ℕ
name = 110 ∷ 118 ∷ 109 ∷ []

abbrev none_left : ControlPlane
none_left = record three { free_containers = 0 }

app_manage_table_add_example :
    (root : ℕ) × (p' : Primary) × (fs1 : Disk) × (let res =
        (dirs.mkdir fs1 ((root * 1024) % 2 ^ 32) name).1 in
      (app_manage_table_add disk dirs 1024 9 name (primary four) no_files
        ≡ ok (
          p',
          (dirs.mkdir fs1 ((root * 1024) % 2 ^ 32) name).0,
          if is_negative res then res else pos 0,
        ))
      × (p'.last_allocated_ino ≡ (if is_negative res then (root * 1024) % 2 ^ 32 else 0)))
    × ((row four root).owner_core_id ≡ 0)
    × Granted four p'.cp root 9 unlocked
    × (p'.cp.free_containers + 1 ≡ four.free_containers)
    × IsValid p'.cp
    × (node p'.apps 9 ≡ registered 9 root name (node apps 9))
app_manage_table_add_example =
    app_manage_table_add-Granted disk dirs 1024 9 name (primary four) no_files IsApp-9 (omega arith)
      refl four-IsValid (omega arith)

idle-own : idle 7 true (free_row ∷ own ∷ []) ≡ true
unfolding idle
idle-own = refl

app_manage_table_remove_example :
    (p' : Primary) × (fs' : Disk) × (app_manage_table_remove disk dirs 7 1 (primary three) no_files
      ≡ ok (p', fs', pos 0))
    × (count_owned 7 p'.cp.reservation_table ≡ 0)
    × ((node p'.apps 7).channel_id ≡ no_channel)
    × IsValid p'.cp
app_manage_table_remove_example =
    app_manage_table_remove-released disk dirs 7 (primary three) no_files first_row
      (free_row ∷ own ∷ []) IsApp-7 refl three-IsValid refl (omega arith) idle-own

app_round_trip_example :
    (id : ℕ) × (p' p'' : Primary) × (fs' fs'' : Disk) × (alloc_container
        (primary_call disk volume)
        9
        true
        0
        (primary four, no_files)
      ≡ ok ((p', fs'), pos id))
    × (dealloc_container (primary_call disk volume) 9 true id (p', fs') ≡ ok ((p'', fs''), pos 0))
    × (p''.cp.free_containers ≡ 1)
    × IsValid p''.cp
app_round_trip_example =
    app_round_trip disk volume 9 (primary four) no_files four-IsValid (omega arith) (omega arith)

-- Container 3 is in use by core 7.
app-refused_example :
    dealloc_container (primary_call disk volume) 7 true 3 (primary four, no_files) ≡ abort
app-refused_example =
    app-refused disk volume 7 3 (primary four) no_files (omega arith) (inr (omega arith))

abbrev health_msg : Message
health_msg = set (set (replicate 32 0) 0 19) 1 7
