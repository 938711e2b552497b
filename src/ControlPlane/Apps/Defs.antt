-- ===== src/ControlPlane/Apps/Defs.antt =====
-- The application table and its operations. An application's channel is its core.
use nvfuse.Prelude.{
  ℕ, zero, suc, ◌+◌, ◌-◌, ◌*◌, ◌^◌, Bool, Option, none, some, List, [], ◌∷◌, ◌++◌, length, get_or,
  set, replicate,
}
use nvfuse.Prelude.Int.{ℤ, pos, negsuc}
use nvfuse.Bytes.{bytes_of}
use nvfuse.ControlPlane.State.{Cursor}
use nvfuse.ControlPlane.Init.{div_up}
use nvfuse.ControlPlane.Log.Storage.{Storage}

-- SPDK_NUM_CORES, NAME_SIZE
abbrev pub num_cores : ℕ
num_cores = 16

abbrev pub name_size : ℕ
name_size = 16

-- `(s32)-1` as a bit pattern
abbrev pub no_channel : ℕ
no_channel = 2 ^ 32 - 1

-- struct app_manage_node: the bytes of its list head, a channel, the 16 bytes of a name, and the
-- container of its directory.
pub record AppNode : Type 0 where
  pub links : List ℕ
  pub channel_id : ℕ
  pub name : List ℕ
  pub root_bg_id : ℕ

-- It also stands for a row outside the table, which is not read.
abbrev pub zero_node : AppNode
zero_node = record {
  links = replicate 16 0;
  channel_id = 0;
  name = replicate name_size 0;
  root_bg_id = 0;
}

-- The fields of struct control_plane_context for the table.
pub record AppTable : Type 0 where
  pub app_manage_table : List AppNode
  pub app_table_size : ℕ
  pub app_valid_count : ℕ
  pub app_log : Cursor

abbrev pub node : AppTable → ℕ → AppNode
node at i = get_or at.app_manage_table i zero_node

abbrev pub set_node : AppTable → ℕ → AppNode → AppTable
set_node at i n = record at { app_manage_table = set at.app_manage_table i n }

-- The table after INIT_LIST_HEAD and `channel_id = -1` for each of its nodes, the first of which is
-- number `i`; a list head holds its own address twice.
unfoldable pub fresh_nodes : (address : ℕ → ℕ) → (rounds i : ℕ) → List AppNode
fresh_nodes address zero i = []
fresh_nodes address (suc rounds) i =
    record zero_node {
      links = bytes_of 8 (address i) ++ bytes_of 8 (address i);
      channel_id = no_channel;
    }
    ∷ fresh_nodes address rounds (i + 1)

-- `memory` is what nvfuse_alloc_aligned_buffer() returns: the nodes' addresses, or NULL.
unfoldable pub app_manage_table_init : Option (ℕ → ℕ) → AppTable × ℤ
unfolding fresh_nodes
app_manage_table_init memory =
    let at : AppTable = record {
      app_manage_table = [];
      app_table_size = div_up (40 * num_cores) 4096;
      app_valid_count = 0;
      app_log = record { generation = 1; cur_log_file = 0; max_log_file = 2 };
    } in
    elim memory [
      | none ↦ (at, negsuc 0)
      | some address ↦ (record at { app_manage_table = fresh_nodes address num_cores 0 }, pos 0)
    ]

-- The table in memory, padded with zeros to its size.
unfoldable pub nodes_image : List AppNode → List ℕ
nodes_image [] = []
nodes_image (n ∷ t) =
    n.links ++ (bytes_of 4 n.channel_id ++ (n.name ++ (bytes_of 4 n.root_bg_id ++ nodes_image t)))

unfoldable pub app_table_image : AppTable → List ℕ
unfolding nodes_image
app_table_image at =
    let bytes = nodes_image at.app_manage_table in
    bytes ++ replicate (at.app_table_size - length bytes) 0

-- What registration uses of the directories of the file system. A directory's path is
-- `container_%s`; `mkdir` is given sb_last_allocated_ino, the hint for the inode of the directory.
pub record Directories (st : Storage) : Type 0 where
  -- nvfuse_openfile_path() of `app_table_%d.file`, the log of the application table
  pub open_app_log : (Storage.Files st) → ℕ → Bool → Storage.Files st × Option ℕ
  -- nvfuse_getattr(): whether it returned 0
  pub exists : (Storage.Files st) → List ℕ → Bool
  -- nvfuse_mkdir_path(), nvfuse_rmdir_path()
  pub mkdir : (Storage.Files st) → (last_allocated_ino : ℕ) → List ℕ → Storage.Files st × ℤ
  pub rmdir : (Storage.Files st) → List ℕ → Storage.Files st × ℤ
  -- the block group's descriptor made anew, and its bitmaps cleared
  pub format_container : (Storage.Files st) → ℕ → Storage.Files st
  -- nvfuse_check_flush_dirty(sb, 1)
  pub force_flush : (Storage.Files st) → Storage.Files st
