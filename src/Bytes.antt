-- ===== src/Bytes.antt =====
-- Memory as a list of bytes: numbers in it, least significant byte first, comparison, and writes.
use nvfuse.Prelude.{
  ℕ, zero, suc, ◌+◌, ◌*◌, ◌%◌, ◌/◌, ◌^◌, ◌<◌, ◌≤◌, ◌≡◌, refl, sym, ap, ◌∙◌, Bool, true, false, ◌&&◌,
  arith, List, [], ◌∷◌, ◌++◌, length, take, drop, replicate, ◌==◌, length-append,
}
use mathlib.Core.List.{append_assoc}

-- The `k` bytes of a number.
unfoldable pub bytes_of : ℕ → ℕ → List ℕ
bytes_of zero v = []
bytes_of (suc k) v = (v % 256) ∷ bytes_of k (v / 256)

-- The number in the first `k` bytes.
unfoldable pub value_of : ℕ → List ℕ → ℕ
value_of zero bs = 0
value_of (suc k) [] = 0
value_of (suc k) (b ∷ bs) = b + 256 * value_of k bs

-- memcmp(a, b, n) == 0, for memory of the same length
unfoldable pub bytes_eq : List ℕ → List ℕ → Bool
bytes_eq [] [] = true
bytes_eq [] (y ∷ ys) = false
bytes_eq (x ∷ xs) [] = false
bytes_eq (x ∷ xs) (y ∷ ys) = (x == y) && bytes_eq xs ys

-- memcpy(area + o, bs, length of bs)
unfoldable pub write_at : List ℕ → ℕ → List ℕ → List ℕ
write_at area o bs = take o area ++ (bs ++ drop (o + length bs) area)

pub length-bytes_of : (k v : ℕ) → length (bytes_of k v) ≡ k
unfolding bytes_of
length-bytes_of zero v = refl
length-bytes_of (suc k) v = omega (arith, length-bytes_of k (v / 256))

-- A 32-bit number is read back as it was written.
pub value_of-bytes_of : (v : ℕ) (bs : List ℕ) → v < 2 ^ 32 → value_of 4 (bytes_of 4 v ++ bs) ≡ v
unfolding value_of bytes_of
value_of-bytes_of v bs h = omega arith

pub value_of-zeros : (k : ℕ) → 4 ≤ k → value_of 4 (replicate k 0) ≡ 0
unfolding value_of
value_of-zeros zero h = absurd (omega arith)
value_of-zeros (suc zero) h = absurd (omega arith)
value_of-zeros (suc (suc zero)) h = absurd (omega arith)
value_of-zeros (suc (suc (suc zero))) h = absurd (omega arith)
value_of-zeros (suc (suc (suc (suc k)))) h = refl

pub bytes_eq_refl : (xs : List ℕ) → bytes_eq xs xs ≡ true
unfolding bytes_eq
bytes_eq_refl [] = refl
bytes_eq_refl (x ∷ xs) = ground (arith, bytes_eq_refl xs)

pub eq_of_bytes_eq : (xs ys : List ℕ) → bytes_eq xs ys ≡ true → xs ≡ ys
unfolding bytes_eq
eq_of_bytes_eq [] [] h = refl
eq_of_bytes_eq [] (y ∷ ys) h = cc
eq_of_bytes_eq (x ∷ xs) [] h = cc
eq_of_bytes_eq (x ∷ xs) (y ∷ ys) h = ground (arith, eq_of_bytes_eq xs ys)

suc-out : (m n : ℕ) → suc m + n ≡ suc (m + n)
suc-out m n = omega arith

module _ {ℓ} {A : Type ℓ} where
  pub drop-append : (xs ys : List A) (k : ℕ) → drop (length xs + k) (xs ++ ys) ≡ drop k ys
  drop-append [] ys k = ap (λ n. drop n ys) (omega arith)
  drop-append (x ∷ xs) ys k =
      ap (λ n. drop n (x ∷ (xs ++ ys))) (suc-out (length xs) k) ∙ drop-append xs ys k

  pub take-append : (xs ys : List A) → take (length xs) (xs ++ ys) ≡ xs
  take-append [] ys = refl
  take-append (x ∷ xs) ys = ap (λ t. x ∷ t) (take-append xs ys)

  pub drop-length : (xs ys : List A) → drop (length xs) (xs ++ ys) ≡ ys
  drop-length [] ys = refl
  drop-length (x ∷ xs) ys = drop-length xs ys

  pub replicate-append : (m n : ℕ) (a : A) → replicate m a ++ replicate n a ≡ replicate (m + n) a
  replicate-append zero n a = ap (λ k. replicate k a) (omega arith)
  replicate-append (suc m) n a =
      ap (λ t. a ∷ t) (replicate-append m n a) ∙ ap (λ k. replicate k a) (sym (suc-out m n))

-- A write over as many bytes.
pub write_at-middle :
    (pre old new post : List ℕ)
    → length old ≡ length new
    → write_at (pre ++ (old ++ post)) (length pre) new ≡ pre ++ (new ++ post)
unfolding write_at
write_at-middle pre old new post e = rw (
  take-append pre (old ++ post),
  drop-append pre (old ++ post) (length new),
  ← e,
  drop-length old post,
)

-- The same, further in.
pub write_at-in :
    (pre mid old new post : List ℕ) (o : ℕ)
    → o ≡ length pre + length mid
    → length old ≡ length new
    → write_at (pre ++ (mid ++ (old ++ post))) o new ≡ pre ++ (mid ++ (new ++ post))
write_at-in pre mid old new post o e f =
    ap (λ t. write_at t o new) (sym (append_assoc pre mid (old ++ post)))
    ∙ ap (λ k. write_at ((pre ++ mid) ++ (old ++ post)) k new)
        (omega (arith, e, length-append pre mid))
    ∙ write_at-middle (pre ++ mid) old new post f
    ∙ append_assoc pre mid (new ++ post)
