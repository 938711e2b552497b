-- ===== src/Io/Bytes.antt =====
-- The bytes of a file, across its blocks.
use nvfuse.Prelude.{
  ℕ, ◌+◌, ◌-◌, ◌*◌, ◌/◌, ◌%◌, ◌<◌, ◌≤◌, ◌≡◌, sym, ap, ◌∙◌, Option, none, some, arith, List, ◌++◌,
  length, get_or, take, drop, length-append, length-take, length-drop, block_of_offset,
  get_or-append_left, get_or-append_right, get_or-take, get_or-drop,
}
use nvfuse.Bytes.{write_at}
use nvfuse.Io.Defs.{File}
use native.Mathlib.Nat.{div-add-mod'}

-- The bytes of an area of which a part is written: before it, in it and behind it.
module _ (area bs : List ℕ) (o : ℕ) (fits : o + length bs ≤ length area) where
  head_length : length (take o area) ≡ o
  head_length = length-take o area ∙ ground arith

  pub get_or-write_at_before : (i : ℕ) → i < o → get_or (write_at area o bs) i 0 ≡ get_or area i 0
  unfolding write_at
  get_or-write_at_before i h =
      get_or-append_left (take o area) (bs ++ drop (o + length bs) area) i 0
        (omega (arith, head_length))
      ∙ get_or-take o area i 0 h

  pub get_or-write_at_in :
      (j : ℕ) → j < length bs → get_or (write_at area o bs) (o + j) 0 ≡ get_or bs j 0
  unfolding write_at
  get_or-write_at_in j h =
      let e : o + j ≡ length (take o area) + j = omega (arith, head_length) in
      ap (λ k. get_or (write_at area o bs) k 0) e
      ∙ get_or-append_right (take o area) (bs ++ drop (o + length bs) area) j 0
      ∙ get_or-append_left bs (drop (o + length bs) area) j 0 h

  pub get_or-write_at_behind :
      (i : ℕ) → o + length bs ≤ i → get_or (write_at area o bs) i 0 ≡ get_or area i 0
  unfolding write_at
  get_or-write_at_behind i h =
      let e : i ≡ length (take o area) + (length bs + (i - (o + length bs))) =
        omega (arith, head_length) in
      let e' : o + length bs + (i - (o + length bs)) ≡ i = omega arith in
      ap (λ k. get_or (write_at area o bs) k 0) e
      ∙ get_or-append_right (take o area) (bs ++ drop (o + length bs) area)
          (length bs + (i - (o + length bs))) 0
      ∙ get_or-append_right bs (drop (o + length bs) area) (i - (o + length bs)) 0
      ∙ get_or-drop (o + length bs) area (i - (o + length bs)) 0
      ∙ ap (λ k. get_or area k 0) e'

  pub length-write_at_in : length (write_at area o bs) ≡ length area
  unfolding write_at
  length-write_at_in =
      length-append (take o area) (bs ++ drop (o + length bs) area)
      ∙ omega (
        arith,
        head_length,
        length-append bs (drop (o + length bs) area),
        length-drop (o + length bs) area,
      )

module _ (cluster : ℕ) where
  -- The byte of a file at an offset; 0 where no block is allocated.
  unfoldable pub byte_at : File → ℕ → ℕ
  byte_at f i = elim (f.blocks (i / cluster)) [ none ↦ 0 | some b ↦ get_or b (i % cluster) 0 ]

  pub same_block :
      (i j : ℕ)
      → 1 ≤ cluster
      → i / cluster * cluster ≤ j
      → j < i / cluster * cluster + cluster
      → j / cluster ≡ i / cluster
  same_block i j c lo hi =
      ap (λ x. x / cluster) (omega arith)
      ∙ block_of_offset cluster (i / cluster) (j - i / cluster * cluster) (omega arith)

  pub block_unique :
      (l l' : ℕ)
      → 1 ≤ cluster
      → l * cluster ≤ l' * cluster
      → l' * cluster < l * cluster + cluster
      → l' ≡ l
  block_unique l l' c lo hi =
      sym (block_of_offset cluster l' 0 c)
      ∙ ap (λ x. x / cluster) (omega arith)
      ∙ block_of_offset cluster l (l' * cluster - l * cluster) (omega arith)

  -- A byte is that of its block.
  pub byte_at_congr :
      (g f : File) (i : ℕ)
      → g.blocks (i / cluster) ≡ f.blocks (i / cluster)
      → byte_at g i ≡ byte_at f i
  unfolding byte_at
  byte_at_congr g f i e =
      ap (λ (o : Option (List ℕ)). elim o [ none ↦ 0 | some b ↦ get_or b (i % cluster) 0 ]) e

  pub byte_at-some :
      (f : File) (i : ℕ) {b : List ℕ}
      → f.blocks (i / cluster) ≡ some b
      → byte_at f i ≡ get_or b (i % cluster) 0
  unfolding byte_at
  byte_at-some f i e =
      ap (λ (o : Option (List ℕ)). elim o [ none ↦ 0 | some b ↦ get_or b (i % cluster) 0 ]) e

  pub offset_in_block : (i j : ℕ) → i / cluster ≡ j / cluster → i + j % cluster ≡ j + i % cluster
  offset_in_block i j e =
      let e' : i / cluster * cluster ≡ j / cluster * cluster = ap (λ q. q * cluster) e in
      omega (arith, div-add-mod' i cluster, div-add-mod' j cluster)

  pub start_of_block : (w : ℕ) → w / cluster * cluster ≤ w
  start_of_block w = omega (arith, div-add-mod' w cluster)
