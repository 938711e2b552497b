-- ===== src/Prelude/Blocks.antt =====
-- Offsets in an area that is divided into blocks of the same size.
use Prim.Native.Nat.{ℕ, ◌+◌, ◌*◌, ◌/◌, ◌<◌}
use mathlib.Core.Path.{◌≡◌, ap, ◌∙◌}
use native.Mathlib.Omega.{arith}
use native.Mathlib.Nat.{div-eq_of_lt, mul-add-div_right}

-- The offsets of a block.
pub block_of_offset : (size l k : ℕ) → k < size → (l * size + k) / size ≡ l
block_of_offset size l k h =
    mul-add-div_right {m = size} (omega arith) l k ∙ ap (λ d. l + d) (div-eq_of_lt h) ∙ omega arith
