-- ===== src/Lib.antt =====
-- NVFUSE, a user-space file system on NVMe devices: the control plane, the extended attributes, the
-- queues of the reactor, the messages between processes, open files, directories, the block groups, the
-- block pointers of a file and the bit operations of the bitmaps.
--
-- A primary process owns the control plane. It gives out containers (groups of blocks) and buffers to
-- the processes that use the file system, which ask by messages; the table of containers is logged
-- to two files in turn. A file's extended attributes stand in the tail of its inode block.
--
-- Files:
--   Prelude   names that all modules share: lists, options, tests and integers over the native
--             numbers
--   Run       what a call comes to: a result, a failed assertion, an access out of bounds, or a
--             loop that never ends
--   Scan      a search round a table from a start, with a bound on its rounds
--   Bytes     little-endian words and writes into an array of bytes
--   ControlPlane   nvfuse_control_plane.c. State has `struct control_plane_context`; Init, Alloc,
--             Release, Reserve and Buffer the operations of the same names
--             (nvfuse_control_plane_container_table_init, _container_alloc, _container_release,
--             _container_release_by_coreid, _reservation_acquire, _reservation_release and
--             _buffer_*). Log has nvfuse_store_container_table and nvfuse_load_container_table over
--             a parameter, Log/Storage, for the file API.
--             Apps has the application table: nvfuse_app_manage_table_init, _add and _remove, its log,
--             nvfuse_control_plane_init and _exit; the directories are a parameter.
--   Ipc       nvfuse_ipc_ring.c. Message has the words of a message and the nvfuse_make_* functions,
--             Server primary_poll_core of examples/control_plane_proc/control_plane_proc.c, Client
--             nvfuse_send_msg_to_primary_core and its callers there and in nvfuse_core.c. Rpc joins
--             a client with the server: the rings between them are DPDK's.
--   Groups    nvfuse_core.c, the block groups. Defs has the descriptor, the superblock's counters and
--             nvfuse_dec_free_inodes, nvfuse_dec_free_blocks, nvfuse_get_free_blocks and
--             nvfuse_check_free_*; Members the list of groups (nvfuse_add_bg, nvfuse_remove_bg,
--             nvfuse_*_bg_id) and nvfuse_inc_free_inodes and nvfuse_inc_free_blocks, which give a
--             free group back; Blocks nvfuse_alloc_dbitmap, nvfuse_free_dbitmap and
--             nvfuse_free_blocks; Inodes nvfuse_scan_free_ibitmap, nvfuse_release_ibitmap and
--             nvfuse_find_free_inode. The cached blocks of a group are its fields.
--   Io        open files. Defs has struct nvfuse_file_table, nvfuse_readfile_core and
--             nvfuse_writefile_core with their counterparts for direct I/O (nvfuse_api.c), on the
--             blocks that nvfuse_get_bh gives; Table the table of open files (nvfuse_core.c) and
--             nvfuse_openfile_ino; Bytes the bytes of a file across its blocks.
--   Dirs      directories. Defs has the entries and nvfuse_find_empty_dentry (nvfuse_core.c); Find
--             nvfuse_find_existing_dentry and nvfuse_lookup with nvfuse_lookup_linear and
--             nvfuse_lookup_bptree; Change the parts of nvfuse_createfile, nvfuse_mkdir,
--             nvfuse_rmfile, nvfuse_rmdir, nvfuse_shrink_dentry (nvfuse_api.c), nvfuse_link and
--             nvfuse_rm_direntry (nvfuse_core.c) that work on the directory. The index of a
--             directory is an interface, DirIndexing, for nvfuse_get_dir_indexing and its
--             counterparts; allocation and the inodes of the entries are inputs.
--   Xattr     nvfuse_xattr.c. Defs has nvfuse_set_xattr, nvfuse_remove_xattr, nvfuse_get_xattr and
--             nvfuse_list_xattr on the 3972 bytes of attributes of an inode; Format says which list
--             of attributes the bytes stand for, Spec what the operations do to the list.
--   Reactor   nvfuse_reactor.c. Defs has the queues of a task (reactor_sq_put_req, reactor_sq_get_req,
--             reactor_cq_put_req, reactor_cq_get_reqs), reactor_submit_reqs and reactor_alloc_task.
--             A call is one step, since it holds the queue's mutex; a wait for the condition
--             variable is an answer of its own.
--   Indirect  nvfuse_indirect.c. Defs has nvfuse_block_to_path.
--   Bitmap    nvfuse_dep.c. Bits has ext2fs_set_bit, ext2fs_clear_bit and ext2fs_test_bit.
--
-- The server of the messages calls the control plane, whose two tables are its state. A job that the
-- reactor completes is an input; the other components do not share state.
--
-- Integers: a number of the source that is only counted and compared for equality is a natural number
-- below 2 ^ 32 with its wrap-around; buffer sizes are integers. The unsigned difference in
-- nvfuse_set_xattr wraps. Sizes of files and offsets in them are natural numbers, which stay below the
-- maximal size of a file. What a write returns is a 32-bit number that is read as signed; the count of
-- the entries that fit in a directory and the end of a range of blocks that is freed wrap at 2 ^ 32.
--
-- Bounds: the search for a new container has no bound in the source. It goes round a table that does
-- not change, so a round that finds nothing is a loop that never ends, and is a `hang` of the model. A
-- walk along the attributes has fuel 3972, one for each byte; each step passes at least 10 bytes, and
-- a walk outside the array is a `fault` of the model before the fuel is used up. The loops of a read
-- and a write have the number of bytes as fuel, since a round takes one at least; the search for an
-- empty entry starts again after each block that it adds, and two rounds are enough. The rounds of
-- nvfuse_lookup_linear over a block have a bound that is a parameter of the lookup, since they may
-- never end. The search for free blocks of a group of n blocks has fuel 2 n + 1; each round adds at
-- least one to a count that ends it at n. The search for an inode over the groups has a round for each
-- group and one more.
--
-- Not modelled: path resolution, inode reads and the buffer cache around the attributes (their outcome
-- is an input); printing; the memory and descriptors that the log leaks on its error paths; the
-- channels and the copy of the superblock behind the messages; the caches, the reading and writing
-- of inodes, the first block of a directory, the B+tree and the index of a directory that stands on it,
-- and the device access; the copies of the Linux list and tree libraries.
pub mod Prelude
pub mod Run
pub mod Scan
pub mod Bytes
pub mod ControlPlane
pub mod Xattr
pub mod Reactor
pub mod Indirect
pub mod Bitmap
pub mod Ipc
pub mod Groups
pub mod Io
pub mod Dirs
