-- ===== src/Bitmap/Bits.antt =====
-- ext2fs_set_bit(), ext2fs_clear_bit() and ext2fs_test_bit() of nvfuse_dep.c on the bytes of a
-- bitmap. The number of a bit lies within the bitmap in every call; `nr >> 3` is `nr / 8`, and
-- `nr & 7` is `nr % 8`.
use nvfuse.Prelude.{
  ℕ, zero, suc, ◌+◌, ◌*◌, ◌/◌, ◌%◌, ◌<◌, ◌≡◌, ◌≢◌, sym, ap, ap₂, ◌∙◌, inl, inr, Bool, true, false,
  List, length, get_or, set, ◌==◌, if◌then◌else◌, arith, get_or-set_self, get_or-set_ne, eq-cases,
}

-- byte & (1 << k), byte | (1 << k) and byte & ~(1 << k), digit by digit
unfoldable pub has_bit : (byte k : ℕ) → Bool
has_bit byte zero = byte % 2 == 1
has_bit byte (suc k) = has_bit (byte / 2) k

unfoldable pub or_bit : (byte k : ℕ) → ℕ
or_bit byte zero = byte / 2 * 2 + 1
or_bit byte (suc k) = or_bit (byte / 2) k * 2 + byte % 2

unfoldable pub and_not_bit : (byte k : ℕ) → ℕ
and_not_bit byte zero = byte / 2 * 2
and_not_bit byte (suc k) = and_not_bit (byte / 2) k * 2 + byte % 2

unfoldable pub ext2fs_test_bit : ℕ → List ℕ → Bool
unfolding has_bit
ext2fs_test_bit nr addr = has_bit (get_or addr (nr / 8) 0) (nr % 8)

unfoldable pub ext2fs_set_bit : ℕ → List ℕ → List ℕ
unfolding or_bit
ext2fs_set_bit nr addr = set addr (nr / 8) (or_bit (get_or addr (nr / 8) 0) (nr % 8))

unfoldable pub ext2fs_clear_bit : ℕ → List ℕ → List ℕ
unfolding and_not_bit
ext2fs_clear_bit nr addr = set addr (nr / 8) (and_not_bit (get_or addr (nr / 8) 0) (nr % 8))

low_digit : (a d : ℕ) → d < 2 → ((a * 2 + d) / 2 ≡ a) × ((a * 2 + d) % 2 ≡ d)
low_digit a d h = (omega arith, omega arith)

even_half : (a : ℕ) → a * 2 / 2 ≡ a
even_half a = omega arith

suc_test : (j k : ℕ) → (j == k) ≡ (suc j == suc k)
suc_test j k = ground arith

has_bit-or_bit :
    (byte k j : ℕ) → has_bit (or_bit byte k) j ≡ (if j == k then true else has_bit byte j)
unfolding has_bit or_bit
has_bit-or_bit byte zero zero = ground arith
has_bit-or_bit byte zero (suc j) = rw ((low_digit (byte / 2) 1 (omega arith)).0) (ground arith)
has_bit-or_bit byte (suc k) zero = ground arith
has_bit-or_bit byte (suc k) (suc j) =
    ap (λ b. has_bit b j) ((low_digit (or_bit (byte / 2) k) (byte % 2) (omega arith)).0)
    ∙ has_bit-or_bit (byte / 2) k j
    ∙ ap (λ t. if t then true else has_bit (byte / 2) j) (suc_test j k)

has_bit-and_not_bit :
    (byte k j : ℕ) → has_bit (and_not_bit byte k) j ≡ (if j == k then false else has_bit byte j)
unfolding has_bit and_not_bit
has_bit-and_not_bit byte zero zero = ground arith
has_bit-and_not_bit byte zero (suc j) = ap (λ b. has_bit b j) (even_half (byte / 2)) ∙ ground arith
has_bit-and_not_bit byte (suc k) zero = ground arith
has_bit-and_not_bit byte (suc k) (suc j) =
    ap (λ b. has_bit b j) ((low_digit (and_not_bit (byte / 2) k) (byte % 2) (omega arith)).0)
    ∙ has_bit-and_not_bit (byte / 2) k j
    ∙ ap (λ t. if t then false else has_bit (byte / 2) j) (suc_test j k)

-- A write to the byte of bit `nr` by a function that moves that bit alone.
test-set :
    (f : ℕ → ℕ → ℕ) (v : Bool) (nr other : ℕ) (addr : List ℕ)
    → ((byte k j : ℕ) → has_bit (f byte k) j ≡ (if j == k then v else has_bit byte j))
    → nr / 8 < length addr
    → ext2fs_test_bit other (set addr (nr / 8) (f (get_or addr (nr / 8) 0) (nr % 8)))
      ≡ (if other == nr then v else ext2fs_test_bit other addr)
unfolding ext2fs_test_bit
test-set f v nr other addr law h = elim (eq-cases (other / 8) (nr / 8)) [
  | inl e ↦
      ap
        (λ i.
          has_bit (get_or (set addr (nr / 8) (f (get_or addr (nr / 8) 0) (nr % 8))) i 0)
            (other % 8))
        e.1
      ∙ ap (λ b. has_bit b (other % 8))
          (get_or-set_self addr (nr / 8) (f (get_or addr (nr / 8) 0) (nr % 8)) 0 h)
      ∙ law (get_or addr (nr / 8) 0) (nr % 8) (other % 8)
      ∙ ap₂ (λ t i. if t then v else has_bit (get_or addr i 0) (other % 8)) (same_byte other nr e.1)
          (sym e.1)
  | inr n ↦
      ap (λ b. has_bit b (other % 8))
        (get_or-set_ne addr (nr / 8) (other / 8) (f (get_or addr (nr / 8) 0) (nr % 8)) 0
          (λ q. n.1 (sym q)))
      ∙ ap (λ t. if t then v else has_bit (get_or addr (other / 8) 0) (other % 8))
          (sym (other_byte other nr n.1))
]
  where
    same_byte : (a b : ℕ) → a / 8 ≡ b / 8 → (a % 8 == b % 8) ≡ (a == b)
    same_byte a b e = ground arith

    other_byte : (a b : ℕ) → a / 8 ≢ b / 8 → (a == b) ≡ false
    other_byte a b ne = ground arith

-- After a bit within the bitmap is set, the bit tests as set and every other bit as before.
pub test_bit-set_bit :
    (nr other : ℕ) (addr : List ℕ)
    → nr / 8 < length addr
    → ext2fs_test_bit other (ext2fs_set_bit nr addr)
      ≡ (if other == nr then true else ext2fs_test_bit other addr)
unfolding ext2fs_set_bit
test_bit-set_bit nr other addr h = test-set or_bit true nr other addr has_bit-or_bit h

-- After a bit within the bitmap is cleared, the bit tests as clear and every other bit as before.
pub test_bit-clear_bit :
    (nr other : ℕ) (addr : List ℕ)
    → nr / 8 < length addr
    → ext2fs_test_bit other (ext2fs_clear_bit nr addr)
      ≡ (if other == nr then false else ext2fs_test_bit other addr)
unfolding ext2fs_clear_bit
test_bit-clear_bit nr other addr h = test-set and_not_bit false nr other addr has_bit-and_not_bit h
