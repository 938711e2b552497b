-- ===== src/Groups/Blocks.antt =====
-- The blocks of a group: nvfuse_alloc_dbitmap(), nvfuse_free_dbitmap() and nvfuse_free_blocks() of
-- nvfuse_core.c.
use nvfuse.Prelude.{
  ℕ, zero, suc, ◌+◌, ◌%◌, ◌/◌, Bool, true, false, ◌||◌, not, List, [], ◌∷◌, length, ltb, ◌==◌,
  if◌then◌else◌, Option, ◌-◌, ◌^◌,
}
use nvfuse.Run.{Run, ok, abort, fault, hang, ◌>>=◌}
use nvfuse.Bitmap.Bits.{ext2fs_test_bit, ext2fs_set_bit, ext2fs_clear_bit}
use nvfuse.Ipc.Message.{Message}
use nvfuse.Groups.Defs.{
  Group, Super, group, set_group, get_group, dec_u32, inc_u32, dec_free_blocks,
}
use nvfuse.Groups.Members.{inc_free_blocks}

-- What the search of nvfuse_alloc_dbitmap() leaves: the bitmap, the last block taken, the blocks
-- taken, and the place where it stops.
pub record Taking : Type 0 where
  pub bitmap : List ℕ
  pub next_block : ℕ
  pub blocks : List ℕ
  pub place : ℕ

-- The loop, in a group of `n` blocks whose data start at block `start`. A round counts for one, and
-- for all blocks before the data where the search goes round the end. The loop runs while the count
-- is below `n`; `fuel` that runs out before is a `hang`.
unfoldable pub take_blocks :
    (n start bg_start fuel cnt free_block num next_block : ℕ) → List ℕ → Run Taking
take_blocks n start bg_start zero cnt free_block num next_block bits =
    if ltb cnt n
    then hang
    else ok (record { bitmap = bits; next_block = next_block; blocks = []; place = free_block })
take_blocks n start bg_start (suc fuel) cnt free_block num next_block bits =
    let block = if free_block == 0 then start else free_block in
    let cnt' = if free_block == 0 then inc_u32 (cnt + 1) (dec_u32 start 1) else cnt + 1 in
    elim (ltb cnt n) [
      | false ↦
          ok (record { bitmap = bits; next_block = next_block; blocks = []; place = free_block })
      | true ↦ elim (ext2fs_test_bit block bits) [
        | true ↦ take_blocks n start bg_start fuel cnt' ((block + 1) % n) num next_block bits
        | false ↦
            let bits' = ext2fs_set_bit block bits in
            let one = inc_u32 bg_start block in
            elim (dec_u32 num 1 == 0) [
              | true ↦
                  ok (record {
                    bitmap = bits';
                    next_block = block;
                    blocks = one ∷ [];
                    place = block;
                  })
              | false ↦
                  take_blocks n start bg_start fuel cnt' ((block + 1) % n) (dec_u32 num 1) block
                    bits'
                  >>= λ t. ok (record t { blocks = one ∷ t.blocks })
            ]
      ]
    ]

-- nvfuse_alloc_dbitmap(): the blocks it writes, of which it returns the number
unfoldable pub alloc_dbitmap : (bg_id num_blocks : ℕ) → Super → Run (Super × List ℕ)
unfolding take_blocks
alloc_dbitmap bg_id num_blocks sb =
    let n = sb.sb_no_of_blocks_per_bg in
    let g = group sb bg_id in
    if not (ltb bg_id (length sb.groups)) || n == 0 then fault else do
      t ←
          take_blocks n (g.bd.bd_dtable_start % n) g.bd.bd_bg_start (suc (n + n)) 0
            (g.bd.bd_next_block % n) num_blocks g.bd.bd_next_block g.dbitmap
      let g' : Group = record g {
        bd = record g.bd { bd_next_block = t.next_block };
        dbitmap = t.bitmap;
      }
      let cnt = length t.blocks
      if cnt == 0
          then ok (set_group sb bg_id g', [])
          else (dec_free_blocks (inc_u32 g.bd.bd_bg_start t.place) cnt (set_group sb bg_id g')
              >>= λ sb'. ok (sb', t.blocks))

-- The loop of nvfuse_free_dbitmap() over `count` bits
unfoldable pub clear_blocks : (count offset : ℕ) → List ℕ → Run (List ℕ)
clear_blocks zero offset bits = ok bits
clear_blocks (suc count) offset bits = elim (ext2fs_test_bit offset bits) [
  | true ↦ clear_blocks count (offset + 1) (ext2fs_clear_bit offset bits)
  | false ↦ abort
]

module _ {State : Type 0} (call : Message → State → Run (State × Option Message)) where
  module _ (chan_id : ℕ) (got : Bool) where
    -- nvfuse_free_dbitmap(), for an offset within the group
    unfoldable pub free_dbitmap : (bg_id offset count : ℕ) → Super → State → Run (Super × State)
    unfolding clear_blocks
    free_dbitmap bg_id offset count sb s = do
      g ← get_group sb bg_id
      bits ← clear_blocks count offset g.dbitmap
      let bd = record g.bd { bd_next_block = if count == 0 then g.bd.bd_next_block else offset }
      let sb' = set_group sb bg_id (record g { bd = bd; dbitmap = bits })
      if count == 0
          then ok (sb', s)
          else inc_free_blocks call chan_id got (inc_u32 g.bd.bd_bg_start offset) count sb' s

    -- The loop of nvfuse_free_blocks(): `left` blocks are to be looked at from `blk` on, and `length`
    -- from `offset` on in the group `bg_id` have been gathered.
    unfoldable pub gather_blocks :
        (per_bg left blk bg_id offset length : ℕ) → Super → State → Run (Super × State)
    unfolding free_dbitmap
    gather_blocks per_bg zero blk bg_id offset length sb s = ok (sb, s)
    gather_blocks per_bg (suc left) blk bg_id offset length sb s =
        let next = blk + 1 in
        elim (not (bg_id == (next / per_bg)) || left == 0) [
          | true ↦ free_dbitmap bg_id offset (length + 1) sb s >>= λ r.
              gather_blocks per_bg left next (next / per_bg) (next % per_bg) 0 (r.0) (r.1)
          | false ↦ gather_blocks per_bg left next bg_id offset (length + 1) sb s
        ]

    -- nvfuse_free_blocks(). `end_blk` is a u32: where the end of the range wraps to its start or in front
    -- of it, the loop makes no round.
    unfoldable pub free_blocks : (block_to_delete count : ℕ) → Super → State → Run (Super × State)
    unfolding gather_blocks
    free_blocks block_to_delete count sb s =
        let per_bg = sb.sb_no_of_blocks_per_bg in
        let end_blk = (block_to_delete + count) % 2 ^ 32 in
        if per_bg == 0
        then fault
        else gather_blocks per_bg (end_blk - block_to_delete) block_to_delete
            (block_to_delete / per_bg) (block_to_delete % per_bg) 0 sb s
