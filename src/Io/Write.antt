-- ===== src/Io/Write.antt =====
-- What nvfuse_writefile_core() in nvfuse_api.c leaves in a file: the loop over blocks as one write of bytes.
use nvfuse.Prelude.{
  get_or-drop, ℕ, zero, suc, ◌+◌, ◌-◌, ◌%◌, ◌<◌, ◌≤◌, ◌≡◌, refl, ap, ◌∙◌, inl, inr, false, Option,
  some, arith, List, [], ◌∷◌, length, get_or, min, max, drop, ◌==◌, lt-cases, length-drop, ◌^◌,
}
use nvfuse.Prelude.Int.{to_s32}
use nvfuse.Run.{Run, ok}
use nvfuse.Io.Defs.{OpenFile, File, Writing, extend, copy_block, write_blocks, writefile_core}
use nvfuse.Io.Extend.{IsFile, Written}
use nvfuse.Io.Store.{Round, round}
use nvfuse.Io.Bytes.{byte_at}
use native.Mathlib.Nat.{mod-lt}

module _ (cluster max_file_size : ℕ) (new_block : ℕ → Option (List ℕ)) (positive : 1 ≤ cluster)
    (found : (l : ℕ) → (b : List ℕ) × (new_block l ≡ some b) × (length b ≡ cluster)) where
  -- The call returns the number of bytes in the buffer and of those written before, as an s32, and the
  -- bytes of the file are those from before with the buffer written at the offset.
  abbrev pub Wrote : (user_buf : List ℕ) (wcount : ℕ) → OpenFile → File → Run Writing → Type 0
  Wrote user_buf wcount of f call =
      (w : Writing) × (call ≡ ok w)
      × (w.ret ≡ to_s32 ((wcount + length user_buf) % 2 ^ 32))
      × (w.of.rwoffset ≡ of.rwoffset + length user_buf)
      × (w.of.size ≡ w.file.i_size)
      × (w.file.i_size ≡ max f.i_size (of.rwoffset + length user_buf))
      × IsFile cluster w.file
      × Written cluster user_buf of.rwoffset f w.file

  -- The end of the buffer.
  Wrote-nothing :
      (wcount : ℕ) (user_buf : List ℕ) (of : OpenFile) (f : File)
      → length user_buf ≡ 0
      → IsFile cluster f
      → of.size ≡ f.i_size
      → of.rwoffset ≤ f.i_size
      → Wrote user_buf wcount of f
          (ok (record { of = of; file = f; ret = to_s32 (wcount % 2 ^ 32) }))
  Wrote-nothing wcount user_buf of f e v c w = (
    record { of = of; file = f; ret = to_s32 (wcount % 2 ^ 32) },
    refl,
    ap (λ n. to_s32 (n % 2 ^ 32)) (omega arith),
    omega arith,
    c,
    omega arith,
    v,
    (λ i lt h. refl, λ k lt. absurd (omega arith), λ i lt h. refl),
  )

  -- A round of the loop, and then the rest of it.
  Wrote-Round :
      (wcount remain : ℕ) (user_buf : List ℕ) (of : OpenFile) (f : File) (call : Run Writing)
      → remain ≡ min (cluster - of.rwoffset % cluster) (length user_buf)
      → (r : Round cluster max_file_size new_block positive found user_buf of f)
      → Wrote (drop remain user_buf) (wcount + remain) (r.1.0) (r.1.1) call
      → Wrote user_buf wcount of f call
  Wrote-Round wcount remain user_buf of f call m
        (f1, r, extends, copies, offset, current, size, v, before, inside, behind)
        (w, called, ret, offset', size', size'', v', (before', inside', behind')) =
      let part : length (drop remain user_buf) ≡ length user_buf - remain =
        length-drop remain user_buf in
      let enough : remain ≤ length user_buf = omega arith in
      (
        w,
        called,
        ret ∙ ap (λ n. to_s32 (n % 2 ^ 32)) (omega arith),
        omega arith,
        size',
        omega arith,
        v',
        (
          λ i lt h. before' i (omega arith) (omega arith) ∙ before i lt h,
          λ k lt. elim (lt-cases k remain) [
            | inl h ↦ before' (of.rwoffset + k) (omega arith) (omega arith) ∙ inside k (omega arith)
            | inr h ↦
                let e : of.rwoffset + k ≡ r.0.rwoffset + (k - remain) = omega arith in
                let e' : remain + (k - remain) ≡ k = omega arith in
                ap (byte_at cluster w.file) e
                ∙ inside' (k - remain) (omega arith)
                ∙ get_or-drop remain user_buf (k - remain) 0
                ∙ ap (λ j. get_or user_buf j 0) e'
          ],
          λ i lt h. behind' i (omega arith) (omega arith) ∙ behind i lt (omega arith),
        ),
      )

  write_blocks_step :
      (fuel wcount x : ℕ) (xs : List ℕ) (of : OpenFile) (f f1 : File) (r : OpenFile × File)
      → extend cluster max_file_size new_block of f ≡ some f1
      → copy_block cluster max_file_size new_block
          (min (cluster - of.rwoffset % cluster) (length (x ∷ xs)))
          (x ∷ xs)
          of
          f1
        ≡ ok r
      → write_blocks cluster max_file_size new_block (suc fuel) wcount (x ∷ xs) of f
        ≡ write_blocks cluster max_file_size new_block fuel
            (wcount + min (cluster - of.rwoffset % cluster) (length (x ∷ xs)))
            (drop (min (cluster - of.rwoffset % cluster) (length (x ∷ xs))) (x ∷ xs))
            (r.0)
            (r.1)
  unfolding write_blocks
  write_blocks_step fuel wcount x xs of f f1 r extends copies =
      let t : (suc (length xs) == 0) ≡ false = ground arith in
      rw (t, extends, copies, write_blocks) refl

  write_blocks_lem :
      (fuel wcount : ℕ) (user_buf : List ℕ) (of : OpenFile) (f : File)
      → length user_buf ≤ fuel
      → IsFile cluster f
      → of.size ≡ f.i_size
      → of.rwoffset ≤ f.i_size
      → f.i_size < max_file_size
      → of.rwoffset + length user_buf < max_file_size
      → Wrote user_buf wcount of f
          (write_blocks cluster max_file_size new_block fuel wcount user_buf of f)
  unfolding write_blocks
  write_blocks_lem zero wcount user_buf of f enough v c w b b' =
      Wrote-nothing wcount user_buf of f (omega arith) v c w
  write_blocks_lem (suc fuel) wcount [] of f enough v c w b b' =
      Wrote-nothing wcount [] of f refl v c w
  write_blocks_lem (suc fuel) wcount (x ∷ xs) of f enough v c w b b' =
      let buf : List ℕ = x ∷ xs in
      let remain : ℕ = min (cluster - of.rwoffset % cluster) (length buf) in
      let some_left : 1 ≤ remain = omega (arith, mod-lt of.rwoffset positive) in
      let part : length (drop remain buf) ≡ length buf - remain = length-drop remain buf in
      let s = round cluster max_file_size new_block positive found buf of f v c w b b' in
      let (f1, r, extends, copies, offset, current, size, v1, before, inside, behind) = s in
      rw (write_blocks_step fuel wcount x xs of f f1 r extends copies) (
        Wrote-Round wcount remain buf of f
          (write_blocks cluster max_file_size new_block fuel (wcount + remain) (drop remain buf)
            (r.0) (r.1))
          refl s
          (write_blocks_lem fuel (wcount + remain) (drop remain buf) (r.0) (r.1) (omega arith) v1
            current (omega arith) (omega arith) (omega arith)))

  -- The whole loop, from no bytes written on.
  pub writefile_core_lem :
      (user_buf : List ℕ) (woffset : ℕ) (of : OpenFile) (f : File)
      → IsFile cluster f
      → of.size ≡ f.i_size
      → woffset ≤ f.i_size
      → f.i_size < max_file_size
      → woffset + length user_buf < max_file_size
      → Wrote user_buf 0
          (record of { rwoffset = woffset })
          f
          (writefile_core cluster max_file_size new_block user_buf woffset of f)
  unfolding writefile_core
  writefile_core_lem user_buf woffset of f v c w b b' =
      write_blocks_lem (length user_buf) 0 user_buf (record of { rwoffset = woffset }) f
        (omega arith) v c w b b'

  -- nvfuse_writefile_core() of fewer than 2 ^ 32 bytes, at an offset within a well-formed file, whose
  -- descriptor has the file's size, where blocks can be found and the result is below the maximal size,
  -- returns their number as a 32-bit number that is read as signed: the number itself below 2 ^ 31, and
  -- a negative one from there on. Afterwards the buffer stands at the offset, the other bytes
  -- of the file are those from before, the size is the larger of the old one and the end of the write,
  -- the descriptor stands behind the bytes written and has the file's size, and the file is well-formed.
  pub writefile_core-Wrote :
      (user_buf : List ℕ) (woffset : ℕ) (of : OpenFile) (f : File)
      → length user_buf < 2 ^ 32
      → IsFile cluster f
      → of.size ≡ f.i_size
      → woffset ≤ f.i_size
      → f.i_size < max_file_size
      → woffset + length user_buf < max_file_size
      → (w : Writing) × (writefile_core cluster max_file_size new_block user_buf woffset of f
          ≡ ok w)
        × (w.ret ≡ to_s32 (length user_buf))
        × (w.of.rwoffset ≡ woffset + length user_buf)
        × (w.of.size ≡ w.file.i_size)
        × (w.file.i_size ≡ max f.i_size (woffset + length user_buf))
        × IsFile cluster w.file
        × Written cluster user_buf woffset f w.file
  writefile_core-Wrote user_buf woffset of f few v c w b b' =
      let (r, called, ret, offset, size, size', v', written) =
        writefile_core_lem user_buf woffset of f v c w b b' in
      let count : (0 + length user_buf) % 2 ^ 32 ≡ length user_buf = omega (arith, few) in
      (r, called, ret ∙ ap to_s32 count, offset, size, size', v', written)
