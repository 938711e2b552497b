-- ===== src/Ipc/Answers.antt =====
-- What stands in the reply to a request.
use nvfuse.ControlPlane.State.{acquired}
use nvfuse.ControlPlane.Buffer.{buffer_alloc, buffer_free}
use nvfuse.ControlPlane.Alloc.Defs.{container_alloc}
use nvfuse.ControlPlane.Release.Defs.{container_release}
use nvfuse.ControlPlane.Reserve.Defs.{reservation_acquire, reservation_release}
use nvfuse.Prelude.{ℕ, ◌+◌, ◌≡◌, length, ◌==◌, if◌then◌else◌, ◌≢◌}
use nvfuse.Prelude.Int.{ℤ, pos}
use nvfuse.Run.{Run, ok, ◌>>=◌}
use nvfuse.ControlPlane.Log.Storage.{Storage}
use nvfuse.ControlPlane.Apps.Ops.{Primary, app_manage_table_add, app_manage_table_remove}
use nvfuse.Ipc.Message.{
  Message, word, of_s32, app_register_req, app_unregister_req, buffer_alloc_req, buffer_free_req,
  container_alloc_req, container_release_req, container_reservation_acquire_req,
  container_reservation_release_req, health_check_req, to_s32, name_of,
}
use nvfuse.Ipc.Server.{Volume, alloc_type_of, reservation_type_of}

-- The requests but the copy of the superblock, whose answer is written elsewhere.
pub data Request : Type 0 where
  register unregister alloc_buffers free_buffers alloc release acquire release_reservation health :
      Request

abbrev pub request_code : Request → ℕ
request_code register = app_register_req
request_code unregister = app_unregister_req
request_code alloc_buffers = buffer_alloc_req
request_code free_buffers = buffer_free_req
request_code alloc = container_alloc_req
request_code release = container_release_req
request_code acquire = container_reservation_acquire_req
request_code release_reservation = container_reservation_release_req
request_code health = health_check_req

-- The word of the first tag, and the opcode of the reply, which is the one behind the request's but for
-- a reservation that is given back.
abbrev pub tag_of : Request → ℕ
tag_of req = if request_code req == 7 then 4 else 3

abbrev pub reply_code : Request → ℕ
reply_code req = if request_code req == 17 then 16 else request_code req + 1

-- The message `msg` with an opcode, a result in word 2 and both tags cleared, and otherwise as it was.
pub record IsReply (opcode tag : ℕ) (ret : ℤ) (msg msg' : Message) : Type 0 where
  pub same_length : length msg' ≡ length msg
  pub code : word msg' 0 ≡ opcode
  pub result : word msg' 2 ≡ of_s32 ret
  pub tags : (word msg' tag ≡ 0) × (word msg' (tag + 1) ≡ 0)
  pub others : (k : ℕ) → k ≢ 0 → k ≢ 2 → k ≢ tag → k ≢ tag + 1 → word msg' k ≡ word msg k

-- The reply to a call: the result of the call is in the message.
abbrev pub Replied :
    {F : Type 0} (call : Run (Primary × F × ℤ)) (opcode tag : ℕ) (msg msg' : Message)
    → Primary
    → F
    → Type 0
Replied call opcode tag msg msg' p' fs' =
    (ret : ℤ) × (call ≡ ok (p', fs', ret)) × IsReply opcode tag ret msg msg'

module _ (st : Storage) (vol : Volume st) where
  open st use {Files}
  open vol use {dirs, inodes_per_bg}

  -- The operation of the control plane that a request stands for, on the arguments in its words.
  unfoldable pub served : Request → Message → Primary → Files → Run (Primary × Files × ℤ)
  served register msg p fs =
      app_manage_table_add st dirs inodes_per_bg (word msg 1) (name_of msg) p fs >>= λ r.
      ok (r.0, r.1, r.2)
  served unregister msg p fs =
      app_manage_table_remove st dirs (word msg 1) (word msg 2) p fs >>= λ r. ok (r.0, r.1, r.2)
  served alloc_buffers msg p fs =
      buffer_alloc (to_s32 (word msg 2)) p.cp >>= λ r. ok (record p { cp = r.0 }, fs, r.1)
  served free_buffers msg p fs =
      buffer_free (to_s32 (word msg 2)) p.cp >>= λ r. ok (record p { cp = r.0 }, fs, r.1)
  served alloc msg p fs =
      container_alloc st (word msg 1) (alloc_type_of (word msg 2)) acquired p.cp fs >>= λ r.
      ok (record p { cp = r.0 }, r.1, pos (r.2))
  served release msg p fs = container_release st (word msg 1) (word msg 2) p.cp fs >>= λ r.
      ok (record p { cp = r.0 }, r.1, r.2)
  served acquire msg p fs =
      reservation_acquire (word msg 2) (reservation_type_of (word msg 3)) p.cp >>= λ r.
      ok (record p { cp = r.0 }, fs, r.1)
  served release_reservation msg p fs =
      reservation_release (word msg 2) p.cp >>= λ r. ok (record p { cp = r.0 }, fs, r.1)
  served health msg p fs = ok (p, fs, pos 0)
