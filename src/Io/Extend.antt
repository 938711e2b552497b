-- ===== src/Io/Extend.antt =====
-- A well-formed file, and the block that nvfuse_writefile_core() in nvfuse_api.c allocates at its end.
use nvfuse.Prelude.{
  ℕ, ◌+◌, ◌*◌, ◌/◌, ◌<◌, ◌≤◌, ◌≡◌, refl, sym, ap, ◌∙◌, inl, inr, true, false, Option, some, arith,
  List, length, get_or, leb, ◌==◌, lt-cases, eq-cases, Option-cases,
}
use nvfuse.Io.Defs.{OpenFile, File, put_block, allocate, extend}
use nvfuse.Io.Bytes.{byte_at, byte_at_congr, start_of_block}

pub put_block_self :
    (f : File) (l l' : ℕ) (b : List ℕ) → l' ≡ l → (put_block f l b).blocks l' ≡ some b
put_block_self f l l' b e = let t : (l' == l) ≡ true = ground arith in rw t refl

pub put_block-other :
    (f : File) (l l' : ℕ) (b : List ℕ) → ¬ (l' ≡ l) → (put_block f l b).blocks l' ≡ f.blocks l'
put_block-other f l l' b n = let t : (l' == l) ≡ false = ground arith in rw t refl

module _ (cluster : ℕ) where
  -- A file whose blocks have the block size and are allocated up to its end.
  pub record IsFile (f : File) : Type 0 where
    pub sized : (l : ℕ) (b : List ℕ) → f.blocks l ≡ some b → length b ≡ cluster
    pub mapped : (l : ℕ) → l * cluster < f.i_size → (b : List ℕ) × (f.blocks l ≡ some b)

  -- The bytes of `f'` are those of `f` with `buf` written at `woffset`.
  abbrev pub Written : (buf : List ℕ) (woffset : ℕ) (f f' : File) → Type 0
  Written buf woffset f f' =
      ((i : ℕ) → i < f.i_size → i < woffset → byte_at cluster f' i ≡ byte_at cluster f i)
      × ((k : ℕ) → k < length buf → byte_at cluster f' (woffset + k) ≡ get_or buf k 0)
      × ((i : ℕ)
          → i < f.i_size
          → woffset + length buf ≤ i
          → byte_at cluster f' i ≡ byte_at cluster f i)

  -- A block of the right size is stored, and the file may grow by what this block adds.
  pub put_block-IsFile :
      (f : File) (l : ℕ) (b : List ℕ) (n : ℕ)
      → IsFile f
      → length b ≡ cluster
      → ((l' : ℕ) → l' * cluster < n → ¬ (l' ≡ l) → l' * cluster < f.i_size)
      → IsFile (record (put_block f l b) { i_size = n })
  put_block-IsFile f l b n v h grown = record {
    sized = λ l' b' e. elim (eq-cases l' l) [
      | inl y ↦ let e' : some b' ≡ some b = sym e ∙ rw (y.0) refl in ground (arith, h)
      | inr d ↦
          v.sized l' b'
            (let e' : (put_block f l b).blocks l' ≡ f.blocks l' = rw (d.0) refl in sym e' ∙ e)
    ];
    mapped = λ l' lt. elim (eq-cases l' l) [
      | inl y ↦ (b, rw (y.0) refl)
      | inr d ↦
          let m : (b' : List ℕ) × (f.blocks l' ≡ some b') = v.mapped l' (grown l' lt d.1) in
          (m.0, rw (d.0) (m.1))
    ];
  }

-- A block that nvfuse_get_block() finds has the block size.
module _ (cluster max_file_size : ℕ) (new_block : ℕ → Option (List ℕ)) (positive : 1 ≤ cluster)
    (found : (l : ℕ) → (b : List ℕ) × (new_block l ≡ some b) × (length b ≡ cluster)) where
  -- The block at the end of the file is there after it; the bytes are those from before.
  module _ (of : OpenFile) (f : File) (v : IsFile cluster f) (within : of.rwoffset ≤ f.i_size) where
    abbrev pub Extended : File → Type 0
    Extended f1 =
        (extend cluster max_file_size new_block of f ≡ some f1)
        × IsFile cluster f1
        × (f1.i_size ≡ f.i_size)
        × ((b : List ℕ) × (f1.blocks (of.rwoffset / cluster) ≡ some b))
        × ((i : ℕ) → i < f.i_size → byte_at cluster f1 i ≡ byte_at cluster f i)

    Extended-within : of.rwoffset < f.i_size → (f1 : File) × Extended f1
    unfolding extend
    Extended-within h =
        let t : leb f.i_size of.rwoffset ≡ false = ground arith in
        (
          f,
          (
            rw t refl,
            v,
            refl,
            v.mapped (of.rwoffset / cluster) (omega (arith, start_of_block cluster of.rwoffset)),
            λ i lt. refl,
          ),
        )

    Extended-at_end : of.rwoffset ≡ f.i_size → (f1 : File) × Extended f1
    unfolding extend allocate
    Extended-at_end h =
        let t : leb f.i_size of.rwoffset ≡ true = ground arith in
        let same : of.rwoffset / cluster ≡ f.i_size / cluster = ap (λ x. x / cluster) h in
        elim (Option-cases (f.blocks (f.i_size / cluster))) [
          | inr s ↦ (
            f,
            (rw (t, s.1, allocate) refl, v, refl, (s.0, ap f.blocks same ∙ s.1), λ i lt. refl),
          )
          | inl e ↦
              let b = found (f.i_size / cluster) in
              (
                put_block f (f.i_size / cluster) (b.0),
                (
                  rw (t, e, b.1, allocate) refl,
                  put_block-IsFile cluster f (f.i_size / cluster) (b.0) f.i_size v (b.2)
                      (λ l' lt n. lt),
                  refl,
                  (b.0, put_block_self f (f.i_size / cluster) (of.rwoffset / cluster) (b.0) same),
                  λ i lt. byte_at_congr cluster (put_block f (f.i_size / cluster) (b.0)) f i (
                      put_block-other f (f.i_size / cluster) (i / cluster) (b.0) (λ y.
                        let m = v.mapped (i / cluster) (omega (arith, start_of_block cluster i)) in
                        cc (m.1, ap f.blocks y ∙ e))),
                ),
              )
        ]

    pub extended : (f1 : File) × Extended f1
    extended = elim (lt-cases of.rwoffset f.i_size) [
      | inl h ↦ Extended-within (h.1)
      | inr h ↦ Extended-at_end (omega arith)
    ]
