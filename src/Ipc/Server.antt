-- ===== src/Ipc/Server.antt =====
-- primary_poll_core() of examples/control_plane_proc/control_plane_proc.c: one request, answered in
-- its own message.
use nvfuse.Prelude.{ℕ, List, ◌==◌, if◌then◌else◌}
use nvfuse.Prelude.Int.{ℤ, pos, negsuc}
use nvfuse.Run.{Run, ok, ◌>>=◌}
use nvfuse.ControlPlane.State.{acquired, ControlPlane}
use nvfuse.ControlPlane.Log.Storage.{Storage}
use nvfuse.ControlPlane.Buffer.{buffer_alloc, buffer_free}
use nvfuse.ControlPlane.Alloc.Defs.{
  AllocType, container_new_alloc, container_allocated_alloc, container_alloc,
}
use nvfuse.ControlPlane.Release.Defs.{container_release}
use nvfuse.ControlPlane.Reserve.Defs.{
  ReservationType, resv_read_lock, resv_write_lock, invalid, reservation_acquire,
  reservation_release,
}
use nvfuse.ControlPlane.Apps.Defs.{Directories}
use nvfuse.ControlPlane.Apps.Ops.{Primary, app_manage_table_add, app_manage_table_remove}
use nvfuse.Ipc.Message.{
  Message, word, to_s32, name_of, app_register_req, app_unregister_req, superblock_copy_req,
  buffer_alloc_req, buffer_free_req, container_alloc_req, container_release_req,
  container_reservation_acquire_req, container_reservation_release_req, health_check_req,
  make_app_register_cpl, make_app_unregister_cpl, make_superblock_copy_cpl, make_buffer_alloc_cpl,
  make_buffer_free_cpl, make_container_alloc_cpl, make_container_release_cpl,
  make_container_reservation_acquire_cpl, make_container_reservation_release_cpl,
  make_health_check_cpl, make_unkown_cpl,
}

-- The enumerations of a request.
abbrev pub alloc_type_of : ℕ → AllocType
alloc_type_of w = if w == 0 then container_new_alloc else container_allocated_alloc

abbrev pub reservation_type_of : ℕ → ReservationType
reservation_type_of w =
    if w == 1 then resv_read_lock else if w == 2 then resv_write_lock else invalid

-- nvfuse_control_plane_health_check()
abbrev pub health_check : ℕ → ℤ
health_check core_id = pos 0

-- What the server uses beside the tables: nvfuse_superblock_copy(), which writes the superblock in
-- the message, the number of words of a superblock, and sb_no_of_inodes_per_bg.
pub record Volume (st : Storage) : Type 0 where
  pub dirs : Directories st
  pub superblock_copy : (Storage.Files st) → List ℕ → Message → Message × ℤ
  pub superblock_words : ℕ
  pub inodes_per_bg : ℕ

module _ (st : Storage) (vol : Volume st) where
  open st use {Files}
  open vol use {dirs, superblock_copy, superblock_words, inodes_per_bg}

  -- The answer to one kind of request each: the state, the files, and the message.
  abbrev Answer : Type 0
  Answer = Run (Primary × Files × Message)

  abbrev with_cp : Primary → ControlPlane → Primary
  with_cp p cp = record p { cp = cp }

  unfoldable pub primary_poll_core : Message → Primary → Files → Answer
  primary_poll_core msg p fs =
      let opcode = word msg 0 in
      let chan_id = word msg 1 in
      let arg = word msg 2 in
      if opcode == app_register_req
      then (app_manage_table_add st dirs inodes_per_bg chan_id (name_of msg) p fs >>= λ r.
          ok (r.0, r.1, make_app_register_cpl (r.2) msg))
      else if opcode == app_unregister_req
      then (app_manage_table_remove st dirs chan_id arg p fs >>= λ r.
          ok (r.0, r.1, make_app_unregister_cpl (r.2) msg))
      else if opcode == superblock_copy_req
      then (let (msg', ret) = superblock_copy fs (name_of msg) msg in
          ok (p, fs, make_superblock_copy_cpl superblock_words ret msg'))
      else if opcode == buffer_alloc_req
      then (buffer_alloc (to_s32 arg) p.cp >>= λ r.
          ok (with_cp p (r.0), fs, make_buffer_alloc_cpl (r.1) msg))
      else if opcode == buffer_free_req
      then (buffer_free (to_s32 arg) p.cp >>= λ r.
          ok (with_cp p (r.0), fs, make_buffer_free_cpl (r.1) msg))
      else if opcode == container_alloc_req
      then (container_alloc st chan_id (alloc_type_of arg) acquired p.cp fs >>= λ r.
          ok (with_cp p (r.0), r.1, make_container_alloc_cpl (pos (r.2)) msg))
      else if opcode == container_release_req
      then (container_release st chan_id arg p.cp fs >>= λ r.
          ok (with_cp p (r.0), r.1, make_container_release_cpl (r.2) msg))
      else if opcode == container_reservation_acquire_req
      then (reservation_acquire arg (reservation_type_of (word msg 3)) p.cp >>= λ r.
          ok (with_cp p (r.0), fs, make_container_reservation_acquire_cpl (r.1) msg))
      else if opcode == container_reservation_release_req
      then (reservation_release arg p.cp >>= λ r.
          ok (with_cp p (r.0), fs, make_container_reservation_release_cpl (r.1) msg))
      else if opcode == health_check_req
      then ok (p, fs, make_health_check_cpl (health_check chan_id) msg)
      else ok (p, fs, make_unkown_cpl (negsuc 0) msg)
