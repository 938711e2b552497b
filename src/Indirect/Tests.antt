-- ===== src/Indirect/Tests.antt =====
-- The paths of a few blocks.
use nvfuse.Prelude.{◌≡◌, arith, ap}
use nvfuse.Prelude.Int.{pos}
use nvfuse.Indirect.Defs.{block_to_path}
use nvfuse.Indirect.Laws.{
  block_of, InRange, path-double, block_of-block_to_path, block_to_path-InRange,
}

block_of_example : block_of (block_to_path (pos 5000)).offsets ≡ 5000
block_of_example = block_of-block_to_path 5000 (omega arith)

InRange_example : InRange (block_to_path (pos 2000000)).offsets
InRange_example = block_to_path-InRange 2000000 (omega arith)

-- Block 5000 is the number 893 in the fourth block of its tree, 130 blocks before the end.
boundary-5000 : (block_to_path (pos 5000)).boundary ≡ 130
boundary-5000 = ap (λ p. p.boundary) (path-double 3 893 (omega arith) (omega arith))
