-- ===== src/Xattr/Read.antt =====
-- nvfuse_get_xattr() and nvfuse_list_xattr() on the attributes of an inode.
use nvfuse.Prelude.{
  ℕ, ◌+◌, ◌-◌, ◌≤◌, ◌≡◌, sym, ap, subst, ◌∙◌, inl, inr, Option, none, some, arith, List, [], ◌∷◌,
  ◌++◌, length, take, drop, replicate, ltb, if◌then◌else◌, length-append,
}
use nvfuse.Prelude.Int.{ℤ, pos, negsuc}
use nvfuse.Run.{ok, if-ok}
use nvfuse.Bytes.{take-append, drop-append, bytes_of}
use nvfuse.Xattr.Defs.{area_size, max_size, entry_size, found, ended, find, get_in_area}
use nvfuse.Xattr.Format.{
  Attr, size_of, encode, encode_all, total, area_of, AllAttr, length-encode_all,
}
use nvfuse.Xattr.Walk.{find-area_of}
use nvfuse.Xattr.Spec.{lookup_attr, Split-cases, AllAttr-split, area_of-split, entry_size-area_of}

-- What `get` copies for an attribute: the name, its 0, the value, its 0.
abbrev pub payload : Attr → List ℕ
payload e = e.name ++ (0 ∷ (e.value ++ (0 ∷ [])))

-- What `get` answers from a list of attributes: ERANGE (34) unless the buffer is as long as the
-- whole entry, else the payload and zeros to the end of the buffer.
unfoldable pub read_attr : List Attr → List ℕ → ℕ → ℤ × Option (List ℕ)
read_attr es name buf_size = elim (lookup_attr name es) [
  | none ↦ (negsuc 0, none)
  | some e ↦
      if ltb buf_size (size_of e)
      then (pos 34, none)
      else (pos 0, some (payload e ++ replicate (buf_size - (size_of e - 4 - 4)) 0))
]

get-ended :
    (area name : List ℕ) (buf_size last : ℕ)
    → find area name area_size 0 ≡ ok (ended last)
    → get_in_area area name buf_size ≡ ok (negsuc 0, none)
unfolding get_in_area
get-ended area name buf_size last f = rw f

get-found :
    (area name : List ℕ) (buf_size here : ℕ) (e : Attr)
    → find area name area_size 0 ≡ ok (found here)
    → entry_size area here ≡ size_of e
    → take (size_of e - 4 - 4) (drop (here + 8) area) ≡ payload e
    → get_in_area area name buf_size
      ≡ ok (
          if ltb buf_size (size_of e)
          then (pos 34, none)
          else (pos 0, some (payload e ++ replicate (buf_size - (size_of e - 4 - 4)) 0)))
unfolding get_in_area
get-found area name buf_size here e f z t = rw (f, z, t) (if-ok _ _ _)

length-payload : (e : Attr) → length (payload e) ≡ size_of e - 4 - 4
length-payload e =
    omega (arith, length-append e.name (0 ∷ (e.value ++ (0 ∷ []))), length-append e.value (0 ∷ []))

-- The payload stands 8 bytes into an entry.
payload-encode :
    (pre : List ℕ) (e : Attr) (post : List ℕ)
    → take (length (payload e)) (drop (length pre + 8) (pre ++ (encode e ++ post))) ≡ payload e
unfolding encode bytes_of
payload-encode pre e post = rw (drop-append pre (encode e ++ post) 8) (take-append (payload e) post)

payload-area_of :
    (before : List Attr) (e : Attr) (after : List Attr)
    → take (size_of e - 4 - 4) (drop (total before + 8) (area_of (before ++ e ∷ after))) ≡ payload e
payload-area_of before e after =
    rw (area_of-split before e after, ← length-payload e, ← length-encode_all before)
      (payload-encode (encode_all before) e _)

read_attr-old :
    (es : List Attr) (name : List ℕ) (buf_size : ℕ) (e : Attr)
    → lookup_attr name es ≡ some e
    → read_attr es name buf_size ≡ (
        if ltb buf_size (size_of e)
        then (pos 34, none)
        else (pos 0, some (payload e ++ replicate (buf_size - (size_of e - 4 - 4)) 0)))
unfolding read_attr
read_attr-old es name buf_size e q = rw (q, read_attr)

read_attr-none :
    (es : List Attr) (name : List ℕ) (buf_size : ℕ)
    → lookup_attr name es ≡ none
    → read_attr es name buf_size ≡ (negsuc 0, none)
unfolding read_attr
read_attr-none es name buf_size q = rw (q, read_attr)

get-whole :
    (before : List Attr) (e : Attr) (after : List Attr) (name : List ℕ) (buf_size : ℕ)
    → AllAttr (before ++ e ∷ after)
    → find (area_of (before ++ e ∷ after)) name area_size 0 ≡ ok (found (total before))
    → lookup_attr name (before ++ e ∷ after) ≡ some e
    → get_in_area (area_of (before ++ e ∷ after)) name buf_size
      ≡ ok (read_attr (before ++ e ∷ after) name buf_size)
get-whole before e after name buf_size a f q =
    get-found (area_of (before ++ e ∷ after)) name buf_size (total before) e f
      (entry_size-area_of before e after (AllAttr-split before e after a).0)
      (payload-area_of before e after)
    ∙ ap (λ r. ok r) (sym (read_attr-old (before ++ e ∷ after) name buf_size e q))

-- On an inode that holds a list of attributes within the limit, `get` returns -1 if no attribute
-- has the name, ERANGE if the buffer is shorter than the whole entry, and else 0, with the name and
-- the value of the first attribute with the name in the buffer, each ended by a 0, and zeros behind.
pub get_in_area_lem :
    (es : List Attr) (name : List ℕ) (buf_size : ℕ)
    → AllAttr es
    → total es ≤ max_size
    → get_in_area (area_of es) name buf_size ≡ ok (read_attr es name buf_size)
get_in_area_lem es name buf_size a h = elim (Split-cases name es 0) [
  | inl n ↦
      get-ended (area_of es) name buf_size (0 + total es)
        (find-area_of name es a h ∙ ap (λ p. ok p) (n.place))
      ∙ sym (ap (λ r. ok r) (read_attr-none es name buf_size (n.looked_up)))
  | inr s ↦
      subst (λ t. get_in_area (area_of t) name buf_size ≡ ok (read_attr t name buf_size))
        (sym (s.parts))
        (get-whole (s.before) (s.here) (s.after) name buf_size (subst AllAttr (s.parts) a)
          (subst (λ t. find (area_of t) name area_size 0 ≡ ok (found (total (s.before)))) (s.parts)
            (find-area_of name es a h ∙ ap (λ p. ok p) (s.place ∙ ap found (omega arith))))
          (subst (λ t. lookup_attr name t ≡ some (s.here)) (s.parts) (s.looked_up)))
]
