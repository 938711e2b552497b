-- ===== src/Io/Store.antt =====
-- A round of the loop of nvfuse_writefile_core() in nvfuse_api.c: the bytes that are stored in a block.
use nvfuse.Prelude.{
  get_or-take, ℕ, ◌+◌, ◌-◌, ◌*◌, ◌/◌, ◌%◌, ◌<◌, ◌≤◌, ◌≡◌, refl, sym, ap, ◌∙◌, inl, inr, true,
  Option, some, arith, List, length, get_or, min, max, take, ltb, if◌then◌else◌, lt-cases, eq-cases,
  length-take,
}
use nvfuse.Run.{ok, ◌>>=◌}
use nvfuse.Bytes.{write_at}
use nvfuse.Io.Defs.{OpenFile, File, put_block, extend, copy_block}
use nvfuse.Io.Bytes.{
  get_or-write_at_before, get_or-write_at_in, get_or-write_at_behind, length-write_at_in, byte_at,
  same_block, block_unique, offset_in_block, byte_at_congr, byte_at-some, start_of_block,
}
use native.Mathlib.Nat.{mod-lt, div-add-mod'}
use nvfuse.Io.Extend.{IsFile, put_block_self, put_block-other, put_block-IsFile, extended}

-- A block that nvfuse_get_block() finds has the block size.
module _ (cluster max_file_size : ℕ) (new_block : ℕ → Option (List ℕ)) (positive : 1 ≤ cluster)
    (found : (l : ℕ) → (b : List ℕ) × (new_block l ≡ some b) × (length b ≡ cluster)) where
  -- A part of a block is stored.
  module _ (remain : ℕ) (user_buf : List ℕ) (of : OpenFile) (f : File) (b : List ℕ)
      (v : IsFile cluster f) (current : of.size ≡ f.i_size) (within : of.rwoffset ≤ f.i_size)
      (there : f.blocks (of.rwoffset / cluster) ≡ some b) (enough : remain ≤ length user_buf)
      (fits : of.rwoffset % cluster + remain ≤ cluster) (below : f.i_size < max_file_size)
      (below' : of.rwoffset + remain < max_file_size) where
    abbrev end_of : ℕ
    end_of = if ltb of.size (of.rwoffset + remain) then of.rwoffset + remain else of.size

    abbrev stored : List ℕ
    stored = write_at b (of.rwoffset % cluster) (take remain user_buf)

    abbrev copied_of : OpenFile
    copied_of = record of { rwoffset = of.rwoffset + remain; size = end_of }

    abbrev copied_file : File
    copied_file = record (put_block f (of.rwoffset / cluster) stored) { i_size = end_of }

    copied :
        copy_block cluster max_file_size new_block remain user_buf of f
        ≡ ok (copied_of, copied_file)
    unfolding copy_block
    copied =
        let t : ltb end_of max_file_size ≡ true = ground arith in
        rw (there, t, copy_block, ◌>>=◌) refl

    part_length : length (take remain user_buf) ≡ remain
    part_length = length-take remain user_buf ∙ ground arith

    part_fits : of.rwoffset % cluster + length (take remain user_buf) ≤ length b
    part_fits = omega (arith, part_length, v.sized (of.rwoffset / cluster) b there)

    copied_file-IsFile : IsFile cluster copied_file
    copied_file-IsFile =
        put_block-IsFile cluster f (of.rwoffset / cluster) stored end_of v
          (length-write_at_in b (take remain user_buf) (of.rwoffset % cluster) part_fits
            ∙ v.sized (of.rwoffset / cluster) b there)
          (λ l lt n. elim (lt-cases (l * cluster) f.i_size) [
            | inl h ↦ h.1
            | inr h ↦ absurd (
                n (
                  block_unique cluster (of.rwoffset / cluster) l positive
                    (omega (arith, start_of_block cluster of.rwoffset))
                    (ground (arith, div-add-mod' of.rwoffset cluster))))
          ])

    byte_elsewhere :
        (i : ℕ)
        → ¬ (i / cluster ≡ of.rwoffset / cluster)
        → byte_at cluster copied_file i ≡ byte_at cluster f i
    byte_elsewhere i n =
        byte_at_congr cluster copied_file f i
          (put_block-other f (of.rwoffset / cluster) (i / cluster) stored n)

    byte_stored :
        (i : ℕ)
        → (i / cluster ≡ of.rwoffset / cluster)
        → byte_at cluster copied_file i ≡ get_or stored (i % cluster) 0
    byte_stored i e =
        byte_at-some cluster copied_file i
          (put_block_self f (of.rwoffset / cluster) (i / cluster) stored e)

    byte_kept :
        (i : ℕ)
        → (i / cluster ≡ of.rwoffset / cluster)
        → byte_at cluster f i ≡ get_or b (i % cluster) 0
    byte_kept i e = byte_at-some cluster f i (ap f.blocks e ∙ there)

    copied_before : (i : ℕ) → i < of.rwoffset → byte_at cluster copied_file i ≡ byte_at cluster f i
    copied_before i h = elim (eq-cases (i / cluster) (of.rwoffset / cluster)) [
      | inr n ↦ byte_elsewhere i (n.1)
      | inl e ↦
          byte_stored i (e.1)
          ∙ get_or-write_at_before b (take remain user_buf) (of.rwoffset % cluster) part_fits
              (i % cluster) (omega (arith, offset_in_block cluster i of.rwoffset (e.1)))
          ∙ sym (byte_kept i (e.1))
    ]

    copied_behind :
        (i : ℕ) → of.rwoffset + remain ≤ i → byte_at cluster copied_file i ≡ byte_at cluster f i
    copied_behind i h = elim (eq-cases (i / cluster) (of.rwoffset / cluster)) [
      | inr n ↦ byte_elsewhere i (n.1)
      | inl e ↦
          byte_stored i (e.1)
          ∙ get_or-write_at_behind b (take remain user_buf) (of.rwoffset % cluster) part_fits
              (i % cluster)
              (omega (arith, offset_in_block cluster i of.rwoffset (e.1), part_length))
          ∙ sym (byte_kept i (e.1))
    ]

    copied_in :
        (k : ℕ) → k < remain → byte_at cluster copied_file (of.rwoffset + k) ≡ get_or user_buf k 0
    copied_in k h =
        let e : (of.rwoffset + k) / cluster ≡ of.rwoffset / cluster =
          same_block cluster of.rwoffset (of.rwoffset + k) positive
            (omega (arith, start_of_block cluster of.rwoffset))
            (omega (arith, div-add-mod' of.rwoffset cluster)) in
        let p : (of.rwoffset + k) % cluster ≡ of.rwoffset % cluster + k =
          omega (arith, offset_in_block cluster (of.rwoffset + k) of.rwoffset e) in
        byte_stored (of.rwoffset + k) e
        ∙ ap (λ j. get_or stored j 0) p
        ∙ get_or-write_at_in b (take remain user_buf) (of.rwoffset % cluster) part_fits k
            (omega (arith, part_length))
        ∙ get_or-take remain user_buf k 0 h

  -- A round of the loop stores the bytes up to the end of the block or of the buffer.
  abbrev pub Round : (user_buf : List ℕ) → OpenFile → File → Type 0
  Round user_buf of f =
      let remain = min (cluster - of.rwoffset % cluster) (length user_buf) in
      (f1 : File) × (r : OpenFile × File) × (extend cluster max_file_size new_block of f ≡ some f1)
      × (copy_block cluster max_file_size new_block remain user_buf of f1 ≡ ok r)
      × (r.0.rwoffset ≡ of.rwoffset + remain)
      × (r.0.size ≡ r.1.i_size)
      × (r.1.i_size ≡ max f.i_size (of.rwoffset + remain))
      × IsFile cluster r.1
      × ((i : ℕ) → i < f.i_size → i < of.rwoffset → byte_at cluster r.1 i ≡ byte_at cluster f i)
      × ((k : ℕ) → k < remain → byte_at cluster r.1 (of.rwoffset + k) ≡ get_or user_buf k 0)
      × ((i : ℕ)
          → i < f.i_size
          → of.rwoffset + remain ≤ i
          → byte_at cluster r.1 i ≡ byte_at cluster f i)

  pub round :
      (user_buf : List ℕ) (of : OpenFile) (f : File)
      → IsFile cluster f
      → of.size ≡ f.i_size
      → of.rwoffset ≤ f.i_size
      → f.i_size < max_file_size
      → of.rwoffset + length user_buf < max_file_size
      → Round user_buf of f
  round user_buf of f v current within below below' =
      let (f1, (extends, v1, same, there, bytes)) =
        extended cluster max_file_size new_block positive found of f v within in
      let remain = min (cluster - of.rwoffset % cluster) (length user_buf) in
      let offset_lt : of.rwoffset % cluster < cluster = mod-lt of.rwoffset positive in
      let fits : of.rwoffset % cluster + remain ≤ cluster = omega (arith, offset_lt) in
      let current1 : of.size ≡ f1.i_size = current ∙ sym same in
      let within1 : of.rwoffset ≤ f1.i_size = omega (arith, same) in
      let enough : remain ≤ length user_buf = omega arith in
      let below1 : f1.i_size < max_file_size = omega (arith, same) in
      let below1' : of.rwoffset + remain < max_file_size = omega arith in
      (
        f1,
        (
          copied_of remain user_buf of f1 (there.0) v1 current1 within1 (there.1) enough fits below1
              below1',
          copied_file remain user_buf of f1 (there.0) v1 current1 within1 (there.1) enough fits
              below1 below1',
        ),
        extends,
        copied remain user_buf of f1 (there.0) v1 current1 within1 (there.1) enough fits below1
            below1',
        refl,
        refl,
        ground arith,
        copied_file-IsFile remain user_buf of f1 (there.0) v1 current1 within1 (there.1) enough fits
            below1 below1',
        λ i lt h.
            copied_before remain user_buf of f1 (there.0) v1 current1 within1 (there.1) enough fits
              below1 below1' i h
            ∙ bytes i lt,
        copied_in remain user_buf of f1 (there.0) v1 current1 within1 (there.1) enough fits below1
            below1',
        λ i lt h.
            copied_behind remain user_buf of f1 (there.0) v1 current1 within1 (there.1) enough fits
              below1 below1' i h
            ∙ bytes i lt,
      )
