-- ===== src/Ipc/Client.antt =====
-- The requests of an application: nvfuse_send_msg_to_primary_core() and its callers in
-- nvfuse_ipc_ring.c and nvfuse_core.c. The rings and the message pool are DPDK's: `call` sends a
-- message and waits for the reply, `none` if the message could not be sent; `got` says whether the
-- pool had a message, without which the process panics.
use nvfuse.Prelude.{ℕ, ◌*◌, Bool, Option, none, some, set, replicate, ◌==◌, if◌then◌else◌}
use nvfuse.Prelude.Int.{ℤ, pos, negsuc, ◌-ℤ◌, ltb_ℤ}
use nvfuse.Run.{Run, ok, abort, ◌>>=◌}
use nvfuse.Ipc.Message.{
  Message, word, of_s32, to_s32, app_register_req, app_unregister_req, superblock_copy_req,
  buffer_alloc_req, buffer_free_req, container_alloc_req, container_release_req,
  container_reservation_acquire_req, container_reservation_release_req, health_check_req,
  make_app_register_req, make_app_unregister_req, make_superblock_copy_req, make_buffer_alloc_req,
  make_buffer_free_req, make_container_alloc_req, make_container_release_req,
  make_container_reservation_acquire_req, make_container_reservation_release_req,
  make_health_check_req,
}

-- The switch over the opcode. An opcode that is not a request leaves the message as it is.
unfoldable pub prepare : (opcode : ℕ) → Message → Message
prepare opcode msg =
    if opcode == app_register_req
    then make_app_register_req msg
    else if opcode == app_unregister_req
    then make_app_unregister_req msg
    else if opcode == superblock_copy_req
    then make_superblock_copy_req msg
    else if opcode == buffer_alloc_req
    then make_buffer_alloc_req msg
    else if opcode == buffer_free_req
    then make_buffer_free_req msg
    else if opcode == container_alloc_req
    then make_container_alloc_req msg
    else if opcode == container_release_req
    then make_container_release_req msg
    else if opcode == container_reservation_acquire_req
    then make_container_reservation_acquire_req msg
    else if opcode == container_reservation_release_req
    then make_container_reservation_release_req msg
    else if opcode == health_check_req
    then make_health_check_req msg
    else msg

-- A cleared message with its channel.
abbrev pub blank : (chan_id : ℕ) → Message
blank chan_id = set (replicate 32 0) 1 chan_id

-- NVFUSE_MAX_BUFFER_SIZE_DATA * 256
abbrev pub max_buffers : ℕ
max_buffers = 1536 * 256

abbrev pub less_than_zero : ℤ → Bool
less_than_zero ret = ltb_ℤ ret (pos 0)

module _ {State : Type 0} (call : Message → State → Run (State × Option Message)) where
  -- nvfuse_send_msg_to_primary_core()
  unfoldable pub send_msg : (opcode : ℕ) → Message → State → Run (State × ℤ)
  unfolding prepare
  send_msg opcode msg s = do
    (s', reply) ← call (prepare opcode msg) s
    elim reply [ none ↦ ok (s', negsuc 0) | some msg' ↦ ok (s', to_s32 (word msg' 2)) ]

  module _ (chan_id : ℕ) (got : Bool) where
    -- nvfuse_send_app_unregister_req()
    unfoldable pub send_app_unregister_req : (destroy_containers : ℕ) → State → Run (State × ℤ)
    unfolding send_msg
    send_app_unregister_req destroy_containers s =
        if got
        then send_msg app_unregister_req (set (blank chan_id) 2 destroy_containers) s
        else abort

    -- nvfuse_send_alloc_buffer_req(), in a process that has `bm_cache_size` buffers
    unfoldable pub send_alloc_buffer_req :
        (bm_cache_size : ℕ) (buffer_size : ℤ) → State → Run (State × ℤ)
    unfolding send_msg
    send_alloc_buffer_req bm_cache_size buffer_size s =
        let remain = pos max_buffers -ℤ pos bm_cache_size in
        let size : ℤ = if ltb_ℤ remain buffer_size then remain else buffer_size in
        if ltb_ℤ (pos 0) size
        then (if got
            then (send_msg buffer_alloc_req (set (blank chan_id) 2 (of_s32 size)) s >>= λ r.
                ok (r.0, if of_s32 (r.1) == 0 then negsuc 0 else r.1))
            else abort)
        else ok (s, pos 0)

    -- nvfuse_send_dealloc_buffer_req()
    unfoldable pub send_dealloc_buffer_req : (buffer_size : ℤ) → State → Run (State × ℤ)
    unfolding send_msg
    send_dealloc_buffer_req buffer_size s =
        if got
        then (send_msg buffer_free_req (set (blank chan_id) 2 (of_s32 buffer_size)) s >>= λ r.
            if less_than_zero (r.1) then abort else ok r)
        else abort

    -- nvfuse_alloc_container_from_primary_process()
    unfoldable pub alloc_container : (type : ℕ) → State → Run (State × ℤ)
    unfolding send_msg
    alloc_container type s =
        if got then send_msg container_alloc_req (set (blank chan_id) 2 type) s else abort

    -- nvfuse_dealloc_container_from_primary_process()
    unfoldable pub dealloc_container : (bg_id : ℕ) → State → Run (State × ℤ)
    unfolding send_msg
    dealloc_container bg_id s =
        if got
        then (send_msg container_release_req (set (blank chan_id) 2 bg_id) s >>= λ r.
            if less_than_zero (r.1) then abort else ok (r.0, pos 0))
        else abort
