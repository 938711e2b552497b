-- ===== src/Groups/Cleared.antt =====
-- The loop of nvfuse_free_dbitmap() over the bits of a range.
use nvfuse.Prelude.{
  ℕ, zero, suc, ◌+◌, ◌*◌, ◌/◌, ◌<◌, ◌≤◌, ◌≡◌, refl, sym, ap, ◌∙◌, inl, inr, Bool, true, false, ◌&&◌,
  arith, List, length, ltb, leb, ◌==◌, if◌then◌else◌, Bool-cases,
}
use nvfuse.Run.{ok, abort}
use nvfuse.Bitmap.Bits.{ext2fs_test_bit, ext2fs_clear_bit, test_bit-clear_bit}
use nvfuse.Groups.Blocks.{clear_blocks}
use nvfuse.Groups.Accounts.{count_clear, count_clear-differ, length-clear_bit}

-- A bitmap in which the `count` bits from `offset` on are cleared, and no other is changed.
pub record Cleared (offset count : ℕ) (bits bits' : List ℕ) : Type 0 where
  pub bit :
      (j : ℕ)
      → ext2fs_test_bit j bits'
        ≡ (if leb offset j && ltb j (offset + count) then false else ext2fs_test_bit j bits)
  pub same_size : length bits' ≡ length bits

one_cleared :
    (offset count j : ℕ) (b : Bool)
    → (if leb (offset + 1) j && ltb j (offset + 1 + count)
        then false
        else (if j == offset then false else b))
      ≡ (if leb offset j && ltb j (offset + suc count) then false else b)
one_cleared offset count j b = ground arith

none_cleared :
    (offset j : ℕ) (b : Bool) → b ≡ (if leb offset j && ltb j (offset + 0) then false else b)
none_cleared offset j b = ground arith

-- Bits that are all set are cleared, each of which is one clear bit more.
pub clear_blocks-Cleared :
    (start n count offset : ℕ) (bits : List ℕ)
    → start ≤ offset
    → offset + count ≤ n
    → n ≤ 8 * length bits
    → ((j : ℕ) → offset ≤ j → j < offset + count → ext2fs_test_bit j bits ≡ true)
    → (bits' : List ℕ) × (clear_blocks count offset bits ≡ ok bits')
      × Cleared offset count bits bits'
      × (count_clear start n bits' ≡ count + count_clear start n bits)
unfolding clear_blocks
clear_blocks-Cleared start n zero offset bits s h size taken = (
  bits,
  refl,
  record { bit = λ j. none_cleared offset j (ext2fs_test_bit j bits); same_size = refl },
  omega arith,
)
clear_blocks-Cleared start n (suc count) offset bits s h size taken =
    let inside : offset / 8 < length bits = omega arith in
    let cleared = ext2fs_clear_bit offset bits in
    let other = λ (j : ℕ). test_bit-clear_bit offset j bits inside in
    let (bits', e, c, more) =
      clear_blocks-Cleared start n count (offset + 1) cleared (omega arith) (omega arith)
        (omega (arith, length-clear_bit offset bits))
        (λ j l k. other j ∙ (ground (arith, taken j (omega arith) (omega arith)))) in
    let one =
      count_clear-differ start n offset cleared bits s (omega arith) (other offset ∙ ground arith)
        (taken offset (omega arith) (omega arith)) (λ j ne. other j ∙ ground arith) in
    (
      bits',
      rw (taken offset (omega arith) (omega arith), clear_blocks) e,
      record {
        bit = λ j.
            c.bit j
            ∙ ap (λ b. if leb (offset + 1) j && ltb j (offset + 1 + count) then false else b)
                (other j)
            ∙ one_cleared offset count j (ext2fs_test_bit j bits);
        same_size = c.same_size ∙ length-clear_bit offset bits;
      },
      omega (arith, more, one),
    )

-- A bit that is clear stops the loop at the latest when it gets there.
pub clear_blocks-abort :
    (count offset j : ℕ) (bits : List ℕ)
    → offset + count ≤ 8 * length bits
    → offset ≤ j
    → j < offset + count
    → ext2fs_test_bit j bits ≡ false
    → clear_blocks count offset bits ≡ abort
unfolding clear_blocks
clear_blocks-abort zero offset j bits size lo hi clear = absurd (omega arith)
clear_blocks-abort (suc count) offset j bits size lo hi clear =
    elim (Bool-cases (ext2fs_test_bit offset bits)) [
      | inr f ↦ rw (f, clear_blocks) refl
      | inl t ↦
          let later : ¬ (j ≡ offset) =
            λ e. true-ne-false (sym t ∙ ap (λ i. ext2fs_test_bit i bits) (sym e) ∙ clear) in
          let still : ext2fs_test_bit j (ext2fs_clear_bit offset bits) ≡ false =
            test_bit-clear_bit offset j bits (omega arith) ∙ ground arith in
          rw (t, clear_blocks)
            (clear_blocks-abort count (offset + 1) j (ext2fs_clear_bit offset bits)
              (omega (arith, length-clear_bit offset bits)) (omega arith) (omega arith) still)
    ]
  where
    true-ne-false : true ≡ false → ⊥
    true-ne-false e = cc
