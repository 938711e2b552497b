-- ===== src/Indirect/Defs.antt =====
-- nvfuse_block_to_path(), in which `x >> 10` is `x / 1024` and `x & 1023` is `x % 1024`.
use nvfuse.Prelude.{ℕ, ◌+◌, ◌-◌, ◌*◌, ◌/◌, ◌%◌, ◌^◌, List, [], ◌∷◌, ltb, if◌then◌else◌}
use nvfuse.Prelude.Int.{ℤ, pos, negsuc}

-- DIRECT_BLOCKS, also INDIRECT_BLOCKS; DINDIRECT_BLOCKS, TINDIRECT_BLOCKS
abbrev pub direct_blocks : ℕ
direct_blocks = 11

abbrev pub dindirect_blocks : ℕ
dindirect_blocks = 12

abbrev pub tindirect_blocks : ℕ
tindirect_blocks = 13

-- PTRS_PER_BLOCK
abbrev pub ptrs : ℕ
ptrs = 1024

-- The offsets, of which there are as many as the function returns, and `*boundary`, a u32.
pub record BlockPath : Type 0 where
  pub offsets : List ℕ
  pub boundary : ℕ

-- *boundary = final - 1 - (block & (ptrs - 1))
abbrev pub boundary_of : (final low : ℕ) → ℕ
boundary_of final low = (final + 2 ^ 32 - 1 - low) % 2 ^ 32

-- A negative block is its two's complement in `block & (ptrs - 1)`.
unfoldable pub block_to_path : ℤ → BlockPath
block_to_path (negsuc n) = record {
  offsets = [];
  boundary = boundary_of 0 ((2 ^ 32 - 1 - n) % ptrs);
}
block_to_path (pos block) =
    let block1 = block - direct_blocks in
    let block2 = block1 - ptrs in
    let block3 = block2 - ptrs * ptrs in
    if ltb block direct_blocks
    then record { offsets = block ∷ []; boundary = boundary_of direct_blocks (block % ptrs) }
    else if ltb block1 ptrs
    then record {
      offsets = direct_blocks ∷ block1 ∷ [];
      boundary = boundary_of ptrs (block1 % ptrs);
    }
    else if ltb block2 (ptrs * ptrs)
    then record {
      offsets = dindirect_blocks ∷ block2 / ptrs ∷ block2 % ptrs ∷ [];
      boundary = boundary_of ptrs (block2 % ptrs);
    }
    else if ltb (block3 / 2 ^ 20) ptrs
    then record {
      offsets = tindirect_blocks ∷ block3 / 2 ^ 20 ∷ (block3 / ptrs) % ptrs ∷ block3 % ptrs ∷ [];
      boundary = boundary_of ptrs (block3 % ptrs);
    }
    else record { offsets = []; boundary = boundary_of 0 (block3 % ptrs) }
