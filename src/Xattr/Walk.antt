-- ===== src/Xattr/Walk.antt =====
-- The walks along the entries: where they end, on an area that stands for a list of attributes.
use nvfuse.Prelude.{
  ℕ, zero, suc, ◌+◌, ◌-◌, ◌≤◌, ◌<◌, ◌≡◌, sym, ap, ◌∙◌, inl, inr, Bool, ◌&&◌, arith, List, [], ◌∷◌,
  ◌++◌, length, replicate, ◌==◌, if◌then◌else◌, eq-cases, length-append,
}
use mathlib.Core.List.{append_assoc}
use nvfuse.Run.{Run, ok}
use nvfuse.Bytes.{bytes_eq}
use nvfuse.Xattr.Defs.{
  area_size, max_size, e_name_len, e_name, entry_size, Place, found, ended, find, find_last,
}
use nvfuse.Xattr.Format.{
  Attr, size_of, encode, encode_all, total, area_of, IsAttr, AllAttr, length-encode,
  e_name_len-encode, e_name-encode, entry_size-encode, e_name_len-zeros,
}

-- Whether an entry has the name.
abbrev pub has_name : List ℕ → Attr → Bool
has_name name e = (length e.name == length name) && bytes_eq e.name name

-- Where the walk for a name ends that begins at offset `o`.
unfoldable pub place_of : List ℕ → List Attr → ℕ → Place
place_of name [] o = ended o
place_of name (e ∷ es) o = if has_name name e then found o else place_of name es (o + size_of e)

pub length-past : (pre : List ℕ) (e : Attr) → length (pre ++ encode e) ≡ length pre + size_of e
length-past pre e = omega (arith, length-append pre (encode e), length-encode e)

branch :
    (name : List ℕ) (e : Attr) (o : ℕ) {r : Run Place} {p : Place}
    → r ≡ ok p
    → (if has_name name e then ok (found o) else r) ≡ ok (if has_name name e then found o else p)
branch name e o h = ground arith

module _ (name : List ℕ) where
  find-step :
      (area : List ℕ) (fuel o : ℕ) (e : Attr)
      → o + 4 ≤ area_size
      → IsAttr e
      → e_name_len area o ≡ length e.name
      → e_name area o (length e.name) ≡ e.name
      → entry_size area o ≡ size_of e
      → find area name (suc fuel) o
        ≡ (if has_name name e then ok (found o) else find area name fuel (o + size_of e))
  unfolding find
  find-step area fuel o e h a p q r = elim (eq-cases (length e.name) (length name)) [
    | inl l ↦
        let q' : e_name area o (length name) ≡ e.name = ap (e_name area o) (sym l.1) ∙ q in
        ground arith
    | inr n ↦ ground arith
  ]

  find-end :
      (area : List ℕ) (fuel o : ℕ)
      → o + 4 ≤ area_size
      → e_name_len area o ≡ 0
      → find area name (suc fuel) o ≡ ok (ended o)
  unfolding find
  find-end area fuel o h p = ground arith

  -- The walk from behind `pre`: it ends where `place_of` says, if there is fuel for the entries.
  find-place :
      (es : List Attr) (pre : List ℕ) (k fuel : ℕ)
      → AllAttr es
      → length pre + total es + k ≡ area_size
      → 4 ≤ k
      → total es < fuel
      → find (pre ++ (encode_all es ++ replicate k 0)) name fuel (length pre)
        ≡ ok (place_of name es (length pre))
  unfolding encode_all total place_of
  find-place [] pre k zero a s h f = absurd (omega arith)
  find-place [] pre k (suc fuel) a s h f =
      find-end _ fuel (length pre) (omega arith) (e_name_len-zeros pre k h)
  find-place (e ∷ es) pre k zero a s h f = absurd (omega arith)
  find-place (e ∷ es) pre k (suc fuel) a s h f =
      let post = encode_all es ++ replicate k 0 in
      let next =
        rw (length-past pre e, append_assoc pre (encode e) post) at
          (find-place es (pre ++ encode e) k fuel a.1 (omega (arith, length-past pre e)) h
            (omega arith)) in
      rw (append_assoc (encode e) (encode_all es) (replicate k 0)) (
        find-step _ fuel (length pre) e (omega arith) a.0 (e_name_len-encode pre e post a.0)
          (e_name-encode pre e post a.0) (entry_size-encode pre e post a.0)
        ∙ branch name e (length pre) next)

  -- On the area of a list of attributes the walk ends without a fault: at the first entry with the
  -- name, or at the end mark behind all of them.
  pub find-area_of :
      (es : List Attr)
      → AllAttr es
      → total es ≤ max_size
      → find (area_of es) name area_size 0 ≡ ok (place_of name es 0)
  unfolding area_of
  find-area_of es a h =
      find-place es [] (area_size - total es) area_size a (omega arith) (omega arith) (omega arith)

find_last-step :
    (area : List ℕ) (fuel o : ℕ) (e : Attr)
    → o + 4 ≤ area_size
    → IsAttr e
    → e_name_len area o ≡ length e.name
    → entry_size area o ≡ size_of e
    → find_last area (suc fuel) o ≡ find_last area fuel (o + size_of e)
unfolding find_last
find_last-step area fuel o e h a p r = ground arith

find_last-end :
    (area : List ℕ) (fuel o : ℕ)
    → o + 4 ≤ area_size
    → e_name_len area o ≡ 0
    → find_last area (suc fuel) o ≡ ok o
unfolding find_last
find_last-end area fuel o h p = ground arith

-- The walk to the end mark, from behind `pre`.
pub find_last-total :
    (es : List Attr) (pre : List ℕ) (k fuel : ℕ)
    → AllAttr es
    → length pre + total es + k ≡ area_size
    → 4 ≤ k
    → total es < fuel
    → find_last (pre ++ (encode_all es ++ replicate k 0)) fuel (length pre)
      ≡ ok (length pre + total es)
unfolding encode_all total
find_last-total [] pre k zero a s h f = absurd (omega arith)
find_last-total [] pre k (suc fuel) a s h f =
    find_last-end _ fuel (length pre) (omega arith) (e_name_len-zeros pre k h)
    ∙ ap (λ o. ok o) (omega arith)
find_last-total (e ∷ es) pre k zero a s h f = absurd (omega arith)
find_last-total (e ∷ es) pre k (suc fuel) a s h f =
    let post = encode_all es ++ replicate k 0 in
    let next =
      rw (length-past pre e, append_assoc pre (encode e) post) at
        (find_last-total es (pre ++ encode e) k fuel a.1 (omega (arith, length-past pre e)) h
          (omega arith)) in
    rw (append_assoc (encode e) (encode_all es) (replicate k 0)) (
      find_last-step _ fuel (length pre) e (omega arith) a.0 (e_name_len-encode pre e post a.0)
        (entry_size-encode pre e post a.0)
      ∙ next
      ∙ ap (λ o. ok o) (omega arith))
