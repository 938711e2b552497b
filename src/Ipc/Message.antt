-- ===== src/Ipc/Message.antt =====
-- The messages of include/nvfuse_ipc_ring.h and the functions of nvfuse_ipc_ring.c that fill them in.
-- `union nvfuse_ipc_msg` is its 32-bit words: word 0 is the opcode, word 1 the channel, and word 2
-- the `ret` of a completion and the first argument of a request, whose names take eight words.
use nvfuse.Prelude.{
  ℕ, ◌+◌, ◌-◌, ◌%◌, ◌^◌, List, [], ◌∷◌, ◌++◌, get_or, set, take, drop, ◌==◌, if◌then◌else◌,
}
use nvfuse.Prelude.Int.{ℤ, pos, negsuc}
pub use nvfuse.Prelude.Int.{to_s32}
use nvfuse.Bytes.{bytes_of}

-- enum ipc_opcode
abbrev pub app_register_req : ℕ
app_register_req = 1

abbrev pub app_register_cpl : ℕ
app_register_cpl = 2

abbrev pub app_unregister_req : ℕ
app_unregister_req = 3

abbrev pub app_unregister_cpl : ℕ
app_unregister_cpl = 4

abbrev pub superblock_copy_req : ℕ
superblock_copy_req = 5

abbrev pub superblock_copy_cpl : ℕ
superblock_copy_cpl = 6

abbrev pub buffer_alloc_req : ℕ
buffer_alloc_req = 7

abbrev pub buffer_alloc_cpl : ℕ
buffer_alloc_cpl = 8

abbrev pub buffer_free_req : ℕ
buffer_free_req = 9

abbrev pub buffer_free_cpl : ℕ
buffer_free_cpl = 10

abbrev pub container_alloc_req : ℕ
container_alloc_req = 11

abbrev pub container_alloc_cpl : ℕ
container_alloc_cpl = 12

abbrev pub container_release_req : ℕ
container_release_req = 13

abbrev pub container_release_cpl : ℕ
container_release_cpl = 14

abbrev pub container_reservation_acquire_req : ℕ
container_reservation_acquire_req = 15

abbrev pub container_reservation_acquire_cpl : ℕ
container_reservation_acquire_cpl = 16

abbrev pub container_reservation_release_req : ℕ
container_reservation_release_req = 17

abbrev pub health_check_req : ℕ
health_check_req = 19

abbrev pub health_check_cpl : ℕ
health_check_cpl = 20

abbrev pub unkown_cpl : ℕ
unkown_cpl = 21

-- union nvfuse_ipc_msg
abbrev pub Message : Type 0
Message = List ℕ

abbrev pub word : Message → ℕ → ℕ
word msg i = get_or msg i 0

-- An s32 as a word; to_s32 goes back.
abbrev pub of_s32 : ℤ → ℕ
of_s32 (pos n) = n % 2 ^ 32
of_s32 (negsuc n) = (2 ^ 32 - 1 - n) % 2 ^ 32

-- The string that begins in word 2, at most 32 bytes, without its 0.
unfoldable pub until_zero : List ℕ → List ℕ
until_zero [] = []
until_zero (b ∷ bs) = if b == 0 then [] else b ∷ until_zero bs

unfoldable pub words_bytes : List ℕ → List ℕ
words_bytes [] = []
words_bytes (w ∷ ws) = bytes_of 4 w ++ words_bytes ws

unfoldable pub name_of : Message → List ℕ
unfolding until_zero words_bytes
name_of msg = until_zero (words_bytes (take 8 (drop 2 msg)))

-- A request is its opcode and two tags, of which the first stands in word `tag`.
unfoldable pub make_req : (opcode tag : ℕ) → Message → Message
make_req opcode tag msg = set (set (set msg 0 opcode) tag 0) (tag + 1) 0

-- A completion has a result as well. It keeps the channel.
unfoldable pub make_cpl : (opcode tag : ℕ) → ℤ → Message → Message
make_cpl opcode tag ret msg = set (set (set (set msg 0 opcode) 2 (of_s32 ret)) tag 0) (tag + 1) 0

abbrev pub make_app_register_req : Message → Message
make_app_register_req = make_req app_register_req 10

abbrev pub make_app_register_cpl : ℤ → Message → Message
make_app_register_cpl = make_cpl app_register_cpl 3

abbrev pub make_health_check_req : Message → Message
make_health_check_req = make_req health_check_req 2

abbrev pub make_health_check_cpl : ℤ → Message → Message
make_health_check_cpl = make_cpl health_check_cpl 3

abbrev pub make_unkown_cpl : ℤ → Message → Message
make_unkown_cpl = make_cpl unkown_cpl 3

abbrev pub make_app_unregister_req : Message → Message
make_app_unregister_req = make_req app_unregister_req 3

abbrev pub make_app_unregister_cpl : ℤ → Message → Message
make_app_unregister_cpl = make_cpl app_unregister_cpl 3

abbrev pub make_superblock_copy_req : Message → Message
make_superblock_copy_req = make_req superblock_copy_req 10

-- The superblock stands in front of the tags, in `words` words.
abbrev pub make_superblock_copy_cpl : (words : ℕ) → ℤ → Message → Message
make_superblock_copy_cpl words = make_cpl superblock_copy_cpl (3 + words)

abbrev pub make_buffer_alloc_req : Message → Message
make_buffer_alloc_req = make_req buffer_alloc_req 3

-- The field `buffer_size` stands in front of the tags, and is not written.
abbrev pub make_buffer_alloc_cpl : ℤ → Message → Message
make_buffer_alloc_cpl = make_cpl buffer_alloc_cpl 4

abbrev pub make_buffer_free_req : Message → Message
make_buffer_free_req = make_req buffer_free_req 3

abbrev pub make_buffer_free_cpl : ℤ → Message → Message
make_buffer_free_cpl = make_cpl buffer_free_cpl 3

abbrev pub make_container_alloc_req : Message → Message
make_container_alloc_req = make_req container_alloc_req 3

abbrev pub make_container_alloc_cpl : ℤ → Message → Message
make_container_alloc_cpl = make_cpl container_alloc_cpl 3

abbrev pub make_container_release_req : Message → Message
make_container_release_req = make_req container_release_req 3

abbrev pub make_container_release_cpl : ℤ → Message → Message
make_container_release_cpl = make_cpl container_release_cpl 3

abbrev pub make_container_reservation_acquire_req : Message → Message
make_container_reservation_acquire_req = make_req container_reservation_acquire_req 4

abbrev pub make_container_reservation_acquire_cpl : ℤ → Message → Message
make_container_reservation_acquire_cpl = make_cpl container_reservation_acquire_cpl 3

abbrev pub make_container_reservation_release_req : Message → Message
make_container_reservation_release_req = make_req container_reservation_release_req 3

-- The opcode is the acquisition's, as in the source.
abbrev pub make_container_reservation_release_cpl : ℤ → Message → Message
make_container_reservation_release_cpl = make_cpl container_reservation_acquire_cpl 3
