-- ===== src/Indirect/Laws.antt =====
-- The paths of the blocks against the tree that they lead through.
use nvfuse.Prelude.{
  ℕ, ◌+◌, ◌-◌, ◌*◌, ◌/◌, ◌%◌, ◌^◌, ◌≤◌, ◌<◌, ◌≡◌, refl, sym, ap, subst, ◌∙◌, inl, inr, List, [],
  ◌∷◌, arith, lt-cases,
}
use nvfuse.Prelude.Int.{pos, negsuc}
use nvfuse.Indirect.Defs.{ptrs, BlockPath, block_to_path}

-- The number of blocks that the four kinds of pointers reach.
abbrev pub reach : ℕ
reach = 11 + 2 ^ 10 + 2 ^ 20 + 2 ^ 30

-- The block that a path leads to, by the sizes of the trees that it passes.
abbrev pub block_of : List ℕ → ℕ
block_of [] = 0
block_of (a ∷ []) = a
block_of (_ ∷ b ∷ []) = 11 + b
block_of (_ ∷ b ∷ c ∷ []) = 11 + 2 ^ 10 + b * 2 ^ 10 + c
block_of (_ ∷ b ∷ c ∷ d ∷ _) = 11 + 2 ^ 10 + 2 ^ 20 + b * 2 ^ 20 + c * 2 ^ 10 + d

pub path-direct :
    (i : ℕ) → i < 11 → block_to_path (pos i) ≡ record { offsets = i ∷ []; boundary = 10 - i }
unfolding block_to_path
path-direct i h = ground arith

pub path-single :
    (i : ℕ)
    → i < ptrs
    → block_to_path (pos (11 + i)) ≡ record { offsets = 11 ∷ i ∷ []; boundary = 1023 - i }
unfolding block_to_path
path-single i h = ground arith

pub path-double :
    (i j : ℕ)
    → i < ptrs
    → j < ptrs
    → block_to_path (pos (1035 + i * 1024 + j))
      ≡ record { offsets = 12 ∷ i ∷ j ∷ []; boundary = 1023 - j }
unfolding block_to_path
path-double i j hi hj = ground arith

pub path-triple :
    (i j k : ℕ)
    → i < ptrs
    → j < ptrs
    → k < ptrs
    → block_to_path (pos (1049611 + i * 1048576 + j * 1024 + k))
      ≡ record { offsets = 13 ∷ i ∷ j ∷ k ∷ []; boundary = 1023 - k }
unfolding block_to_path
path-triple i j k hi hj hk = ground arith

-- Which tree reaches a block, and by which pointers.
pub data Tier (block : ℕ) : Type 0 where
  direct : block < 11 → Tier block
  single : (i : ℕ) → i < ptrs → block ≡ 11 + i → Tier block
  double : (i j : ℕ) → i < ptrs → j < ptrs → block ≡ 1035 + i * 1024 + j → Tier block
  triple :
      (i j k : ℕ)
      → i < ptrs
      → j < ptrs
      → k < ptrs
      → block ≡ 1049611 + i * 1048576 + j * 1024 + k
      → Tier block

Tier-of : (block : ℕ) → block < reach → Tier block
Tier-of block h = elim (lt-cases block 11) [
  | inl l ↦ direct l.1
  | inr g1 ↦ elim (lt-cases block 1035) [
    | inl l ↦ single (block - 11) (omega (arith, l.1)) (omega (arith, g1.1))
    | inr g2 ↦ elim (lt-cases block 1049611) [
      | inl l ↦
          double ((block - 1035) / 1024) ((block - 1035) % 1024) (omega (arith, l.1)) (omega arith)
            (omega (arith, g2.1))
      | inr g3 ↦
          triple ((block - 1049611) / 1048576) (((block - 1049611) / 1024) % 1024)
            ((block - 1049611) % 1024) (omega arith) (omega arith) (omega arith)
            (omega (arith, g3.1))
    ]
  ]
]

-- The path of a block leads back to that block.
pub block_of-block_to_path :
    (block : ℕ) → block < reach → block_of (block_to_path (pos block)).offsets ≡ block
block_of-block_to_path block h = go block (Tier-of block h)
  where
    go : (b : ℕ) → Tier b → block_of (block_to_path (pos b)).offsets ≡ b
    go b (direct l) = rw (path-direct b l) refl
    go b (single i l e) = rw (e, path-single i l) refl
    go b (double i j li lj e) = rw (e, path-double i j li lj) (omega arith)
    go b (triple i j k li lj lk e) = rw (e, path-triple i j k li lj lk) (omega arith)

-- Each pointer of a path stands in its array: the first among the pointers of the inode that
-- belong to a path of that length, the others in a block of 1024.
abbrev pub InRange : List ℕ → Type 0
InRange [] = ⊥
InRange (a ∷ []) = a < 11
InRange (a ∷ b ∷ []) = (a ≡ 11) × (b < 1024)
InRange (a ∷ b ∷ c ∷ []) = (a ≡ 12) × (b < 1024) × (c < 1024)
InRange (a ∷ b ∷ c ∷ d ∷ []) = (a ≡ 13) × (b < 1024) × (c < 1024) × (d < 1024)
InRange (a ∷ b ∷ c ∷ d ∷ e ∷ rest) = ⊥

-- Every pointer on the path of a block within reach stands in its array.
pub block_to_path-InRange :
    (block : ℕ) → block < reach → InRange (block_to_path (pos block)).offsets
block_to_path-InRange block h = go block (Tier-of block h)
  where
    go : (b : ℕ) → Tier b → InRange (block_to_path (pos b)).offsets
    go b (direct l) = rw (path-direct b l) l
    go b (single i l e) = rw (e, path-single i l) (refl, l)
    go b (double i j li lj e) = rw (e, path-double i j li lj) (refl, li, lj)
    go b (triple i j k li lj lk e) = rw (e, path-triple i j k li lj lk) (refl, li, lj, lk)

-- The path whose last pointer stands `n` further on.
abbrev pub further : ℕ → List ℕ → List ℕ
further n [] = []
further n (a ∷ []) = (a + n) ∷ []
further n (a ∷ b ∷ rest) = a ∷ further n (b ∷ rest)

-- The boundary counts the blocks behind a block whose pointers stand in the same array: the path
-- of each of them is the block's own, but for its last pointer, which stands that much further on.
pub block_to_path-boundary :
    (block n : ℕ)
    → block < reach
    → n ≤ (block_to_path (pos block)).boundary
    → (block_to_path (pos (block + n))).offsets ≡ further n (block_to_path (pos block)).offsets
block_to_path-boundary block n h m = go block (Tier-of block h) m
  where
    step :
        (b : ℕ) (p p' : BlockPath)
        → block_to_path (pos b) ≡ p
        → block_to_path (pos (b + n)) ≡ p'
        → p'.offsets ≡ further n p.offsets
        → (block_to_path (pos (b + n))).offsets ≡ further n (block_to_path (pos b)).offsets
    step b p p' e e' same = ap (λ x. x.offsets) e' ∙ same ∙ sym (ap (λ x. further n x.offsets) e)

    at_block :
        {b c : ℕ} {p : BlockPath} → b ≡ c → block_to_path (pos c) ≡ p → block_to_path (pos b) ≡ p
    at_block e q = ap (λ x. block_to_path (pos x)) e ∙ q

    within :
        (b : ℕ) {p : BlockPath}
        → block_to_path (pos b) ≡ p
        → n ≤ (block_to_path (pos b)).boundary
        → n ≤ p.boundary
    within b e k = subst (λ x. n ≤ x.boundary) e k

    go :
        (b : ℕ)
        → Tier b
        → n ≤ (block_to_path (pos b)).boundary
        → (block_to_path (pos (b + n))).offsets ≡ further n (block_to_path (pos b)).offsets
    go b (direct l) k =
        let here = path-direct b l in
        step b _ _ here (path-direct (b + n) (omega (arith, within b here k))) refl
    go b (single i l e) k =
        let here = at_block e (path-single i l) in
        step b _ _ here
          (at_block (omega arith) (path-single (i + n) (omega (arith, within b here k)))) refl
    go b (double i j li lj e) k =
        let here = at_block e (path-double i j li lj) in
        step b _ _ here
          (at_block (omega arith) (path-double i (j + n) li (omega (arith, within b here k)))) refl
    go b (triple i j c li lj lc e) k =
        let here = at_block e (path-triple i j c li lj lc) in
        step b _ _ here
          (at_block (omega arith) (path-triple i j (c + n) li lj (omega (arith, within b here k))))
          refl

beyond : (block : ℕ) → reach ≤ block → (block_to_path (pos block)).offsets ≡ []
unfolding block_to_path
beyond block h = ground arith

-- A block out of reach and a negative one have no path.
pub block_to_path_empty :
    (block below : ℕ)
    → reach ≤ block
    → ((block_to_path (pos block)).offsets ≡ []) × ((block_to_path (negsuc below)).offsets ≡ [])
unfolding block_to_path
block_to_path_empty block below h = (beyond block h, refl)
