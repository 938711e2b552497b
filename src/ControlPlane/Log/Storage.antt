-- ===== src/ControlPlane/Log/Storage.antt =====
-- What the log uses of the file API and of the allocator, as a parameter. The state of all files is
-- `Files`; each call names what it returns to the log.
use nvfuse.Prelude.{ℕ, List, Option, Bool}

-- One log file is `container_table_%d.file` (get_container_log_name).
pub record Storage : Type 1 where
  pub Files : Type 0
  -- nvfuse_alloc_aligned_buffer(4096): the buffer's contents, `none` for NULL
  pub alloc_buffer : Files → Option (List ℕ)
  -- nvfuse_openfile_path(name, flags): with O_CREAT or without; `none` for a negative descriptor
  pub open_file : Files → ℕ → Bool → Files × Option ℕ
  -- nvfuse_writefile(fd, buf, 4096, offset): whether it returned 4096
  pub write_file : Files → ℕ → List ℕ → ℕ → Files × Bool
  -- nvfuse_readfile(fd, buf, 4096, offset): the block, `none` if it did not return 4096
  pub read_file : Files → ℕ → ℕ → Option (List ℕ)
  pub close_file : Files → ℕ → Files
  -- nvfuse_check_flush_dirty(sb, 0)
  pub check_flush_dirty : Files → Files
