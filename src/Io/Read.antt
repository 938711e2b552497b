-- ===== src/Io/Read.antt =====
-- What nvfuse_readfile_core() in nvfuse_api.c returns: the loop over blocks as one read of bytes, and a
-- read of what nvfuse_writefile_core() wrote.
use nvfuse.Prelude.{
  get_or-append_left, get_or-append_right, get_or-take, get_or-drop, block_of_offset, ℕ, zero, suc,
  ◌+◌, ◌-◌, ◌*◌, ◌/◌, ◌%◌, ◌<◌, ◌≤◌, ◌≡◌, refl, sym, ap, ◌∙◌, inl, inr, true, false, ◌&&◌, Option,
  some, arith, List, [], ◌++◌, length, get_or, min, take, drop, ltb, if◌then◌else◌, lt-cases,
  lt→ltb, length-append, length-take, length-drop,
}
use nvfuse.Run.{Run, ok, ◌>>=◌}
use nvfuse.Io.Defs.{OpenFile, File, Reading, read_blocks, readfile_core}
use nvfuse.Io.Extend.{IsFile}
use nvfuse.Io.Bytes.{byte_at, same_block, offset_in_block, byte_at-some}
use native.Mathlib.Nat.{mod-lt, div-add-mod'}

module _ (cluster : ℕ) (positive : 1 ≤ cluster) where
  -- The end of the block that holds the last byte of the file.
  abbrev pub end_of_blocks : File → ℕ
  end_of_blocks f = (f.i_size + (cluster - 1)) / cluster * cluster

  -- The bytes that a read at an offset finds.
  abbrev pub available : (count roffset : ℕ) → File → ℕ
  available count roffset f =
      if ltb roffset f.i_size then min count (end_of_blocks f - roffset) else 0

  pub size-le-end : (f : File) → f.i_size ≤ end_of_blocks f
  size-le-end f = omega (
    arith,
    div-add-mod' (f.i_size + (cluster - 1)) cluster,
    mod-lt (f.i_size + (cluster - 1)) positive,
  )

  -- The last block of the file ends where its blocks end.
  last_block :
      (f : File) (q : ℕ)
      → q * cluster < f.i_size
      → f.i_size ≤ q * cluster + cluster
      → end_of_blocks f ≡ q * cluster + cluster
  last_block f q lo hi =
      let e : suc q * cluster ≡ q * cluster + cluster = grind arith in
      ap (λ x. x * cluster)
        (ap (λ x. x / cluster) (omega (arith, e))
          ∙ block_of_offset cluster (suc q) (f.i_size - (q * cluster + 1)) (omega arith))
      ∙ e

  block-le-end :
      (f : File) (w : ℕ) → w < f.i_size → w / cluster * cluster + cluster ≤ end_of_blocks f
  block-le-end f w h = elim (lt-cases (w / cluster * cluster + cluster) f.i_size) [
    | inl b ↦ omega (arith, b, size-le-end f)
    | inr b ↦
        omega (arith, last_block f (w / cluster) (omega (arith, div-add-mod' w cluster)) (b.1))
  ]

  -- A round takes what is in the block, and leaves what comes behind it.
  available_round :
      (count w : ℕ) (f : File)
      → w < f.i_size
      → available count w f
        ≡ min (cluster - w % cluster) count
          + available
              (count - min (cluster - w % cluster) count)
              (w + min (cluster - w % cluster) count)
              f
  available_round count w f h =
      let m : w % cluster < cluster = mod-lt w positive in
      let t : ltb w f.i_size ≡ true = lt→ltb w f.i_size h in
      elim (lt-cases (w + min (cluster - w % cluster) count) f.i_size) [
        | inl b ↦
            rw (t, b.0)
              (omega (arith, div-add-mod' w cluster, block-le-end f w h, b.1, size-le-end f))
        | inr b ↦
            rw (t, b.0)
              (omega (
                arith,
                div-add-mod' w cluster,
                last_block f (w / cluster) (omega (arith, div-add-mod' w cluster))
                    (omega (arith, div-add-mod' w cluster, b.1)),
              ))
      ]

  -- A read returns the bytes that it finds at the offset, and the descriptor stands behind them.
  abbrev pub Took : (count : ℕ) → OpenFile → File → Run Reading → Type 0
  Took count of f call =
      (r : Reading) × (call ≡ ok r)
      × (length r.bytes ≡ available count of.rwoffset f)
      × (r.of ≡ record of { rwoffset = of.rwoffset + available count of.rwoffset f })
      × ((k : ℕ)
          → k < available count of.rwoffset f
          → get_or r.bytes k 0 ≡ byte_at cluster f (of.rwoffset + k))

  Took-nothing :
      (count : ℕ) (of : OpenFile) (f : File)
      → available count of.rwoffset f ≡ 0
      → Took count of f (ok (record { of = of; bytes = [] }))
  Took-nothing count of f e = (
    record { of = of; bytes = [] },
    refl,
    sym e,
    (let e' : of.rwoffset ≡ of.rwoffset + available count of.rwoffset f = omega (arith, e) in
        ap (λ w. record of { rwoffset = w }) e'),
    λ k lt. absurd (omega (arith, e, lt)),
  )

  module _ (max_file_size : ℕ) (new_block : ℕ → Option (List ℕ)) (f : File)
      (v : IsFile cluster f) where
    read_blocks_step :
        (fuel count : ℕ) (of : OpenFile) (b : List ℕ)
        → 0 < count
        → of.rwoffset < f.i_size
        → f.blocks (of.rwoffset / cluster) ≡ some b
        → read_blocks cluster max_file_size new_block (suc fuel) count of f ≡ (
            read_blocks cluster max_file_size new_block fuel
              (count - min (cluster - of.rwoffset % cluster) count)
              (record of { rwoffset = of.rwoffset + min (cluster - of.rwoffset % cluster) count })
              f
            >>= λ r. ok (record r {
              bytes =
                  take
                    (min (cluster - of.rwoffset % cluster) count)
                    (drop (of.rwoffset % cluster) b)
                  ++ r.bytes;
            }))
    unfolding read_blocks
    read_blocks_step fuel count of b c h e =
        rw (lt→ltb 0 count c, lt→ltb of.rwoffset f.i_size h, e, read_blocks, ◌>>=◌) refl

    read_blocks_stop :
        (fuel count : ℕ) (of : OpenFile)
        → (ltb 0 count && ltb of.rwoffset f.i_size) ≡ false
        → read_blocks cluster max_file_size new_block (suc fuel) count of f
          ≡ ok (record { of = of; bytes = [] })
    unfolding read_blocks
    read_blocks_stop fuel count of e = rw (e, read_blocks) refl

    byte_of_round :
        (remain : ℕ) (of : OpenFile) (b : List ℕ)
        → of.rwoffset % cluster + remain ≤ cluster
        → f.blocks (of.rwoffset / cluster) ≡ some b
        → (k : ℕ) → k < remain
        → get_or (take remain (drop (of.rwoffset % cluster) b)) k 0
          ≡ byte_at cluster f (of.rwoffset + k)
    byte_of_round remain of b fits e k h =
        let same : (of.rwoffset + k) / cluster ≡ of.rwoffset / cluster =
          same_block cluster of.rwoffset (of.rwoffset + k) positive
            (omega (arith, div-add-mod' of.rwoffset cluster))
            (omega (arith, div-add-mod' of.rwoffset cluster)) in
        let at : of.rwoffset % cluster + k ≡ (of.rwoffset + k) % cluster =
          omega (arith, offset_in_block cluster (of.rwoffset + k) of.rwoffset same) in
        get_or-take remain (drop (of.rwoffset % cluster) b) k 0 h
        ∙ get_or-drop (of.rwoffset % cluster) b k 0
        ∙ ap (λ j. get_or b j 0) at
        ∙ sym (byte_at-some cluster f (of.rwoffset + k) (ap f.blocks same ∙ e))

    -- The bytes of a round, and then the rest.
    Took-round :
        (count remain : ℕ) (of : OpenFile) (b : List ℕ) (call : Run Reading)
        → remain ≤ count
        → of.rwoffset % cluster + remain ≤ cluster
        → f.blocks (of.rwoffset / cluster) ≡ some b
        → available count of.rwoffset f
          ≡ remain + available (count - remain) (of.rwoffset + remain) f
        → Took (count - remain) (record of { rwoffset = of.rwoffset + remain }) f call
        → Took count of f (
            call >>= λ r.
            ok (record r { bytes = take remain (drop (of.rwoffset % cluster) b) ++ r.bytes }))
    Took-round count remain of b call enough fits e a (r, called, size, of', bytes) =
        let part : length (take remain (drop (of.rwoffset % cluster) b)) ≡ remain =
          length-take remain (drop (of.rwoffset % cluster) b)
          ∙ omega
              (arith, length-drop (of.rwoffset % cluster) b, v.sized (of.rwoffset / cluster) b e) in
        let behind : of.rwoffset + remain + available (count - remain) (of.rwoffset + remain) f
            ≡ of.rwoffset + available count of.rwoffset f =
          omega (arith, a) in
        (
          record r { bytes = take remain (drop (of.rwoffset % cluster) b) ++ r.bytes },
          rw called refl,
          length-append (take remain (drop (of.rwoffset % cluster) b)) r.bytes
              ∙ omega (arith, part, size, a),
          of' ∙ ap (λ w. record of { rwoffset = w }) behind,
          λ k lt. elim (lt-cases k remain) [
            | inl h ↦
                get_or-append_left (take remain (drop (of.rwoffset % cluster) b)) r.bytes k 0
                  (omega (arith, part, h.1))
                ∙ byte_of_round remain of b fits e k (h.1)
            | inr h ↦
                let at : k ≡ length (take remain (drop (of.rwoffset % cluster) b)) + (k - remain) =
                  omega (arith, part, h.1) in
                let at' : of.rwoffset + remain + (k - remain) ≡ of.rwoffset + k =
                  omega (arith, h.1) in
                ap (λ j. get_or (take remain (drop (of.rwoffset % cluster) b) ++ r.bytes) j 0) at
                ∙ get_or-append_right (take remain (drop (of.rwoffset % cluster) b)) r.bytes
                    (k - remain) 0
                ∙ bytes (k - remain) (omega (arith, a, lt, h.1))
                ∙ ap (byte_at cluster f) at'
          ],
        )

    read_blocks_lem :
        (fuel count : ℕ) (of : OpenFile)
        → count ≤ fuel
        → Took count of f (read_blocks cluster max_file_size new_block fuel count of f)
    unfolding read_blocks
    read_blocks_lem zero count of enough = Took-nothing count of f (ground arith)
    read_blocks_lem (suc fuel) count of enough =
        let remain : ℕ = min (cluster - of.rwoffset % cluster) count in
        elim (lt-cases 0 count) [
          | inr none_left ↦
              rw (read_blocks_stop fuel count of (ground arith))
                (Took-nothing count of f (ground arith))
          | inl left ↦ elim (lt-cases of.rwoffset f.i_size) [
            | inr behind ↦
                rw (read_blocks_stop fuel count of (ground arith))
                  (Took-nothing count of f (rw (behind.0) refl))
            | inl h ↦
                let offset_lt : of.rwoffset % cluster < cluster = mod-lt of.rwoffset positive in
                let (b, e) =
                  v.mapped (of.rwoffset / cluster)
                    (omega (arith, div-add-mod' of.rwoffset cluster, h.1)) in
                rw (read_blocks_step fuel count of b (left.1) (h.1) e) (
                  Took-round count remain of b
                    (read_blocks cluster max_file_size new_block fuel (count - remain)
                      (record of { rwoffset = of.rwoffset + remain }) f)
                    (omega arith) (omega (arith, offset_lt)) e
                    (available_round count of.rwoffset f (h.1))
                    (read_blocks_lem fuel (count - remain)
                      (record of { rwoffset = of.rwoffset + remain })
                      (omega (arith, offset_lt, left.1))))
          ]
        ]

    -- nvfuse_readfile_core() of a well-formed file returns, and its bytes are those of the file from the
    -- offset on: none where the offset is not below the size, and else as many as are asked for, but
    -- none behind the end of the block that holds the last byte. The descriptor stands behind them.
    pub readfile_core-Took :
        (count roffset : ℕ) (of : OpenFile)
        → Took count
            (record of { rwoffset = roffset })
            f
            (readfile_core cluster max_file_size new_block count roffset of f)
    unfolding readfile_core
    readfile_core-Took count roffset of =
        read_blocks_lem count count (record of { rwoffset = roffset }) (omega arith)
