-- ===== src/Xattr/Write.antt =====
-- The two changes of the bytes: an entry written behind the others, and one taken out.
use nvfuse.Prelude.{
  ℕ, suc, ◌+◌, ◌≡◌, sym, ap, ap₂, ◌∙◌, arith, List, [], ◌∷◌, ◌++◌, length, take, drop, replicate,
  length-append, length-replicate, length-snoc,
}
use mathlib.Core.List.{append_assoc}
use nvfuse.Bytes.{
  bytes_of, write_at, length-bytes_of, write_at-in, drop-append, take-append, drop-length,
  replicate-append,
}
use nvfuse.Xattr.Defs.{remove_entry, write_entry}
use nvfuse.Xattr.Format.{Attr, size_of, encode, IsAttr, length-encode, entry_size-encode}

abbrev zeros : ℕ → List ℕ
zeros k = replicate k 0

-- The space for an entry, field by field.
space :
    (n v m : ℕ)
    → zeros (4 + 4 + n + 1 + v + 1 + m)
      ≡ zeros 4 ++ (zeros 4 ++ (zeros n ++ (0 ∷ (zeros v ++ (0 ∷ zeros m)))))
space n v m =
    ap zeros (omega arith)
    ∙ sym (replicate-append 8 (n + suc (v + suc m)) 0)
    ∙ ap (λ t. zeros 8 ++ t)
        (sym (replicate-append n (suc (v + suc m)) 0)
          ∙ ap (λ t. zeros n ++ (0 ∷ t)) (sym (replicate-append v (suc m) 0)))

encode-append :
    (e : Attr) (post : List ℕ)
    → encode e ++ post
      ≡ bytes_of 4 (length e.name)
        ++ (bytes_of 4 (length e.value) ++ (e.name ++ (0 ∷ (e.value ++ (0 ∷ post)))))
unfolding encode
encode-append e post = simp append_assoc

-- The four writes of an entry, one after the other.
module _ (pre : List ℕ) (e : Attr) (post : List ℕ) where
  -- What stands behind the name, once it is written.
  abbrev tail_of : List ℕ → List ℕ
  tail_of value = 0 ∷ (value ++ (0 ∷ post))

  write_len :
      (rest : List ℕ)
      → write_at (pre ++ (zeros 4 ++ rest)) (length pre) (bytes_of 4 (length e.name))
        ≡ pre ++ (bytes_of 4 (length e.name) ++ rest)
  write_len rest =
      write_at-in pre [] (zeros 4) (bytes_of 4 (length e.name)) rest (length pre) (omega arith)
        (sym (length-bytes_of 4 (length e.name)))

  write_name :
      (l rest : List ℕ)
      → length l ≡ 4
      → write_at
          (pre ++ (l ++ (zeros 4 ++ (zeros (length e.name) ++ rest))))
          (length pre + 8)
          e.name
        ≡ pre ++ (l ++ (zeros 4 ++ (e.name ++ rest)))
  write_name l rest h =
      ap (λ t. write_at (pre ++ t) (length pre + 8) e.name) (sym (append_assoc l (zeros 4) _))
      ∙ write_at-in pre (l ++ zeros 4) (zeros (length e.name)) e.name rest (length pre + 8)
          (omega (arith, length-append l (zeros 4))) (length-replicate (length e.name) 0)
      ∙ ap (λ t. pre ++ t) (append_assoc l (zeros 4) _)

  mid_assoc :
      (l rest : List ℕ)
      → (l ++ (zeros 4 ++ (e.name ++ 0 ∷ []))) ++ rest ≡ l ++ (zeros 4 ++ (e.name ++ 0 ∷ rest))
  mid_assoc l rest = simp append_assoc

  write_value :
      (l : List ℕ)
      → length l ≡ 4
      → write_at
          (pre ++ (l ++ (zeros 4 ++ (e.name ++ tail_of (zeros (length e.value))))))
          (length pre + 8 + length e.name + 1)
          e.value
        ≡ pre ++ (l ++ (zeros 4 ++ (e.name ++ tail_of e.value)))
  write_value l h =
      ap (λ t. write_at (pre ++ t) (length pre + 8 + length e.name + 1) e.value)
        (sym (mid_assoc l (zeros (length e.value) ++ (0 ∷ post))))
      ∙ write_at-in pre (l ++ (zeros 4 ++ (e.name ++ 0 ∷ []))) (zeros (length e.value)) e.value
          (0 ∷ post) (length pre + 8 + length e.name + 1)
          (omega (arith, length-append l (zeros 4 ++ (e.name ++ 0 ∷ [])), length-snoc e.name 0))
          (length-replicate (length e.value) 0)
      ∙ ap (λ t. pre ++ t) (mid_assoc l (e.value ++ (0 ∷ post)))

  write_size :
      (l rest : List ℕ)
      → length l ≡ 4
      → write_at (pre ++ (l ++ (zeros 4 ++ rest))) (length pre + 4) (bytes_of 4 (length e.value))
        ≡ pre ++ (l ++ (bytes_of 4 (length e.value) ++ rest))
  write_size l rest h =
      write_at-in pre l (zeros 4) (bytes_of 4 (length e.value)) rest (length pre + 4) (omega arith)
        (sym (length-bytes_of 4 (length e.value)))

-- Written into clear memory behind `pre`, the four fields make up the entry.
pub write_entry-zeros :
    (pre : List ℕ) (e : Attr) (m : ℕ)
    → write_entry (pre ++ zeros (size_of e + m)) (length pre) e.name e.value
      ≡ pre ++ (encode e ++ zeros m)
unfolding write_entry
write_entry-zeros pre e m =
    let l = bytes_of 4 (length e.name) in
    let four = length-bytes_of 4 (length e.name) in
    let put = bytes_of 4 (length e.value) in
    let o = length pre in
    let clear = tail_of pre e (zeros m) (zeros (length e.value)) in
    ap
      (λ t.
        write_at
          (write_at (write_at (write_at (pre ++ t) o l) (o + 8) e.name) (o + 8 + length e.name + 1)
            e.value)
          (o + 4) put)
      (space (length e.name) (length e.value) m)
    ∙ ap
        (λ t.
          write_at (write_at (write_at t (o + 8) e.name) (o + 8 + length e.name + 1) e.value)
            (o + 4) put)
        (write_len pre e (zeros m) (zeros 4 ++ (zeros (length e.name) ++ clear)))
    ∙ ap (λ t. write_at (write_at t (o + 8 + length e.name + 1) e.value) (o + 4) put)
        (write_name pre e (zeros m) l clear four)
    ∙ ap (λ t. write_at t (o + 4) put) (write_value pre e (zeros m) l four)
    ∙ write_size pre e (zeros m) l (e.name ++ tail_of pre e (zeros m) e.value) four
    ∙ ap (λ t. pre ++ t) (sym (encode-append e (zeros m)))

-- The entry behind `pre` is taken out: what stood behind it moves up, and as much space is clear.
pub remove_entry-middle :
    (pre : List ℕ) (e : Attr) (mid : List ℕ) (k : ℕ)
    → IsAttr e
    → remove_entry
        (pre ++ (encode e ++ (mid ++ zeros k)))
        (length pre)
        (length pre + size_of e + length mid)
      ≡ pre ++ (mid ++ zeros (size_of e + k))
unfolding remove_entry
remove_entry-middle pre e mid k a =
    rw (entry_size-encode pre e (mid ++ zeros k) a, take-append pre (encode e ++ (mid ++ zeros k)))
      (ap₂ (λ x y. pre ++ (x ++ (zeros (size_of e) ++ y)))
          (ap₂ take (omega arith) past_entry ∙ take-append mid (zeros k)) past_mid
        ∙ ap (λ t. pre ++ (mid ++ t)) (replicate-append (size_of e) k 0))
  where
    past_entry :
        drop (length pre + size_of e) (pre ++ (encode e ++ (mid ++ zeros k))) ≡ mid ++ zeros k
    past_entry =
        drop-append pre (encode e ++ (mid ++ zeros k)) (size_of e)
        ∙ ap (λ i. drop i (encode e ++ (mid ++ zeros k))) (sym (length-encode e))
        ∙ drop-length (encode e) (mid ++ zeros k)

    past_mid :
        drop (length pre + size_of e + length mid) (pre ++ (encode e ++ (mid ++ zeros k))) ≡ zeros k
    past_mid =
        ap (λ i. drop i (pre ++ (encode e ++ (mid ++ zeros k)))) (omega (arith))
        ∙ drop-append pre (encode e ++ (mid ++ zeros k)) (size_of e + length mid)
        ∙ ap (λ i. drop i (encode e ++ (mid ++ zeros k))) (omega (arith, length-encode e))
        ∙ drop-append (encode e) (mid ++ zeros k) (length mid)
        ∙ drop-length mid (zeros k)
