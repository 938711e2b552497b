-- ===== src/Groups/Accounts.antt =====
-- The free count of a group is the number of the clear bits of its data blocks. What is taken by
-- nvfuse_alloc_dbitmap() is taken off it.
use nvfuse.Prelude.{
  ℕ, zero, suc, ◌+◌, ◌*◌, ◌/◌, ◌<◌, ◌≤◌, ◌≡◌, refl, sym, ap, ◌∙◌, inl, inr, true, false, not, ◌&&◌,
  arith, List, length, leb, if◌then◌else◌, Bool-cases, eq-cases, lt-cases, length-set,
}
use nvfuse.Bitmap.Bits.{ext2fs_test_bit, ext2fs_set_bit, ext2fs_clear_bit, test_bit-set_bit}
use nvfuse.Groups.Taken.{Taken, nothing, one_more}

-- The clear bits from `start` to below `n`.
unfoldable pub count_clear : (start n : ℕ) → List ℕ → ℕ
count_clear start zero bits = 0
count_clear start (suc k) bits =
    if leb start k && not (ext2fs_test_bit k bits)
    then suc (count_clear start k bits)
    else count_clear start k bits

-- Two bitmaps that agree below `n` have as many clear bits there.
count_clear-agree :
    (start n : ℕ) (a b : List ℕ)
    → ((j : ℕ) → j < n → ext2fs_test_bit j a ≡ ext2fs_test_bit j b)
    → count_clear start n a ≡ count_clear start n b
unfolding count_clear
count_clear-agree start zero a b same = refl
count_clear-agree start (suc k) a b same =
    rw (same k (omega arith), count_clear-agree start k a b (λ j h. same j (omega arith))) refl

-- One bit more that is clear in `a` and set in `b` counts for one.
pub count_clear-differ :
    (start n i : ℕ) (a b : List ℕ)
    → start ≤ i
    → i < n
    → ext2fs_test_bit i a ≡ false
    → ext2fs_test_bit i b ≡ true
    → ((j : ℕ) → ¬ (j ≡ i) → ext2fs_test_bit j a ≡ ext2fs_test_bit j b)
    → count_clear start n a ≡ suc (count_clear start n b)
unfolding count_clear
count_clear-differ start zero i a b s h c d same = absurd (omega arith)
count_clear-differ start (suc k) i a b s h c d same = elim (eq-cases i k) [
  | inl e ↦
      let at_a : ext2fs_test_bit k a ≡ false = ap (λ m. ext2fs_test_bit m a) (sym (e.1)) ∙ c in
      let at_b : ext2fs_test_bit k b ≡ true = ap (λ m. ext2fs_test_bit m b) (sym (e.1)) ∙ d in
      rw
        (
          at_a,
          at_b,
          count_clear-agree start k a b (λ j l. same j (λ q. absurd (omega (arith, e.1, q)))),
        )
        (here start k (count_clear start k b) (omega (arith, e.1)))
  | inr ne ↦
      let at_k = same k (λ q. ne.1 (sym q)) in
      let below : i < k = omega (arith, ne.1) in
      rw (at_k, count_clear-differ start k i a b s below c d same)
        (elim (Bool-cases (leb start k && not (ext2fs_test_bit k b))) [
          | inl t ↦ rw t refl
          | inr f ↦ rw f refl
        ])
]
  where
    here :
        (start k c : ℕ)
        → start ≤ k
        → (if leb start k && not false then suc c else c)
          ≡ suc (if leb start k && not true then suc c else c)
    here start k c h = ground arith

-- Without a clear bit there is none to count.
pub count_clear-full :
    (start n : ℕ) (bits : List ℕ)
    → ((j : ℕ) → start ≤ j → j < n → ext2fs_test_bit j bits ≡ true)
    → count_clear start n bits ≡ 0
unfolding count_clear
count_clear-full start zero bits full = refl
count_clear-full start (suc k) bits full =
    let rest = count_clear-full start k bits (λ j s h. full j s (omega arith)) in
    elim (lt-cases k start) [
      | inl l ↦ rw rest (ground (arith, l.1))
      | inr g ↦ rw (rest, full k (g.1) (omega arith)) (ground arith)
    ]

pub length-set_bit : (i : ℕ) (bits : List ℕ) → length (ext2fs_set_bit i bits) ≡ length bits
unfolding ext2fs_set_bit
length-set_bit i bits = length-set bits (i / 8) _

pub length-clear_bit : (i : ℕ) (bits : List ℕ) → length (ext2fs_clear_bit i bits) ≡ length bits
unfolding ext2fs_clear_bit
length-clear_bit i bits = length-set bits (i / 8) _

-- Each block taken is one clear bit less.
pub count_clear-Taken :
    (n start bg_start : ℕ) {bits blocks bits' : List ℕ}
    → n ≤ 8 * length bits
    → Taken n start bg_start bits blocks bits'
    → (count_clear start n bits ≡ length blocks + count_clear start n bits')
      × (length bits' ≡ length bits)
count_clear-Taken n start bg_start size nothing = (omega arith, refl)
count_clear-Taken n start bg_start {bits} size (one_more block s h c t) =
    let (count, long) =
      count_clear-Taken n start bg_start (omega (arith, length-set_bit block bits)) t in
    let inside : block / 8 < length bits = omega arith in
    let one =
      count_clear-differ start n block bits (ext2fs_set_bit block bits) s h c
        (test_bit-set_bit block block bits inside ∙ ground arith)
        (λ j ne. sym (test_bit-set_bit block j bits inside ∙ ground arith)) in
    (omega (arith, one, count), long ∙ length-set_bit block bits)

pub count_clear-le : (start n : ℕ) (bits : List ℕ) → count_clear start n bits ≤ n
unfolding count_clear
count_clear-le start zero bits = omega arith
count_clear-le start (suc k) bits = ground (arith, count_clear-le start k bits)
