-- ===== src/Xattr/Spec.antt =====
-- The attributes as a list of pairs: what the functions do to it, and where the list is split.
use nvfuse.Prelude.{
  ℕ, ◌+◌, ◌-◌, ◌≤◌, ◌≡◌, refl, sym, ap, ap₂, ◌∙◌, ◌⊎◌, inl, inr, true, Option, none, some, arith,
  List, [], ◌∷◌, ◌++◌, length, replicate, if◌then◌else◌, Bool-cases,
}
use mathlib.Core.List.{append_assoc, append-nil}
use nvfuse.Xattr.Defs.{
  area_size, max_size, e_value_size, entry_size, found, ended, remove_entry, write_entry,
}
use nvfuse.Xattr.Format.{
  Attr, size_of, encode, encode_all, total, area_of, IsAttr, AllAttr, length-encode_all,
  e_value_size-encode, entry_size-encode,
}
use nvfuse.Xattr.Walk.{has_name, place_of}
use nvfuse.Xattr.Write.{write_entry-zeros, remove_entry-middle}

-- The first attribute with the name.
unfoldable pub lookup_attr : List ℕ → List Attr → Option Attr
lookup_attr name [] = none
lookup_attr name (e ∷ es) = if has_name name e then some e else lookup_attr name es

-- All but the first attribute with the name.
unfoldable pub remove_attr : List ℕ → List Attr → List Attr
remove_attr name [] = []
remove_attr name (e ∷ es) = if has_name name e then es else e ∷ remove_attr name es

-- Where the first attribute with the name stands.
pub record Split (name : List ℕ) (es : List Attr) (o : ℕ) : Type 0 where
  pub before : List Attr
  pub here : Attr
  pub after : List Attr
  pub parts : es ≡ before ++ here ∷ after
  pub named : has_name name here ≡ true
  pub place : place_of name es o ≡ found (o + total before)
  pub removed : remove_attr name es ≡ before ++ after
  pub looked_up : lookup_attr name es ≡ some here

-- The name is nowhere.
pub record IsAbsent (name : List ℕ) (es : List Attr) (o : ℕ) : Type 0 where
  pub place : place_of name es o ≡ ended (o + total es)
  pub looked_up : lookup_attr name es ≡ none

pub Split-cases : (name : List ℕ) (es : List Attr) (o : ℕ) → IsAbsent name es o ⊎ Split name es o
unfolding place_of lookup_attr remove_attr total
Split-cases name [] o = inl (record { place = ap ended (omega arith); looked_up = refl })
Split-cases name (e ∷ es) o = elim (Bool-cases (has_name name e)) [
  | inl y ↦ inr (record {
    before = [];
    here = e;
    after = es;
    parts = refl;
    named = y;
    place = rw y (ap found (omega arith));
    removed = rw y;
    looked_up = rw y;
  })
  | inr n ↦ elim (Split-cases name es (o + size_of e)) [
    | inl a ↦
        inl (record {
          place = rw n (a.place ∙ ap ended (omega arith));
          looked_up = rw n (a.looked_up);
        })
    | inr s ↦ inr (record {
      before = e ∷ s.before;
      here = s.here;
      after = s.after;
      parts = ap (λ t. e ∷ t) (s.parts);
      named = s.named;
      place = rw n (s.place ∙ ap found (omega arith));
      removed = rw n (ap (λ t. e ∷ t) (s.removed));
      looked_up = rw n (s.looked_up);
    })
  ]
]

pub total-append : (xs ys : List Attr) → total (xs ++ ys) ≡ total xs + total ys
unfolding total
total-append [] ys = omega arith
total-append (x ∷ xs) ys = omega (arith, total-append xs ys)

pub total-split :
    (xs : List Attr) (e : Attr) (ys : List Attr)
    → total (xs ++ e ∷ ys) ≡ total xs + size_of e + total ys
unfolding total
total-split xs e ys = omega (arith, total-append xs (e ∷ ys))

pub total-snoc : (xs : List Attr) (e : Attr) → total (xs ++ e ∷ []) ≡ total xs + size_of e
unfolding total
total-snoc xs e = omega (arith, total-append xs (e ∷ []))

encode_all-append : (xs ys : List Attr) → encode_all (xs ++ ys) ≡ encode_all xs ++ encode_all ys
unfolding encode_all
encode_all-append [] ys = refl
encode_all-append (x ∷ xs) ys = rw (encode_all-append xs ys) (sym (append_assoc (encode x) _ _))

pub AllAttr-split :
    (xs : List Attr) (e : Attr) (ys : List Attr)
    → AllAttr (xs ++ e ∷ ys)
    → IsAttr e × AllAttr (xs ++ ys)
AllAttr-split [] e ys a = a
AllAttr-split (x ∷ xs) e ys a = let r = AllAttr-split xs e ys a.1 in (r.0, (a.0, r.1))

pub AllAttr-suffix : (xs ys : List Attr) → AllAttr (xs ++ ys) → AllAttr ys
AllAttr-suffix [] ys a = a
AllAttr-suffix (x ∷ xs) ys a = AllAttr-suffix xs ys a.1

pub AllAttr-snoc : (xs : List Attr) (e : Attr) → AllAttr xs → IsAttr e → AllAttr (xs ++ e ∷ [])
AllAttr-snoc [] e a h = (h, tt)
AllAttr-snoc (x ∷ xs) e a h = (a.0, AllAttr-snoc xs e a.1 h)

-- Writing behind the last entry appends the attribute.
pub write_entry-area_of :
    (es : List Attr) (e : Attr)
    → total es + size_of e ≤ max_size
    → write_entry (area_of es) (total es) e.name e.value ≡ area_of (es ++ e ∷ [])
unfolding area_of encode_all
write_entry-area_of es e h =
    ap₂ (λ k o. write_entry (encode_all es ++ replicate k 0) o e.name e.value) (omega arith)
      (sym (length-encode_all es))
    ∙ write_entry-zeros (encode_all es) e (area_size - (total es + size_of e))
    ∙ sym (append_assoc (encode_all es) (encode e) _)
    ∙ ap₂ (λ t k. t ++ replicate k 0) (sym appended) (omega (arith, total-snoc es e))
  where
    appended : encode_all (es ++ e ∷ []) ≡ encode_all es ++ encode e
    appended = encode_all-append es (e ∷ []) ∙ ap (λ t. encode_all es ++ t) (append-nil (encode e))

-- The area from behind some of its entries.
pub area_of-prefix :
    (before rest : List Attr)
    → area_of (before ++ rest)
      ≡ encode_all before ++ (encode_all rest ++ replicate (area_size - total (before ++ rest)) 0)
unfolding area_of
area_of-prefix before rest =
    ap (λ t. t ++ replicate (area_size - total (before ++ rest)) 0) (encode_all-append before rest)
    ∙ append_assoc (encode_all before) (encode_all rest) _

-- The area around one of its entries.
module _ (before : List Attr) (e : Attr) (after : List Attr) where
  abbrev behind : List ℕ
  behind = encode_all after ++ replicate (area_size - total (before ++ e ∷ after)) 0

  pub area_of-split : area_of (before ++ e ∷ after) ≡ encode_all before ++ (encode e ++ behind)
  unfolding area_of encode_all
  area_of-split =
      ap (λ t. t ++ replicate (area_size - total (before ++ e ∷ after)) 0)
        (encode_all-append before (e ∷ after))
      ∙ append_assoc (encode_all before) (encode e ++ encode_all after) _
      ∙ ap (λ t. encode_all before ++ t) (append_assoc (encode e) (encode_all after) _)

  -- A field of the entry, by its offset.
  read_entry :
      (f : List ℕ → ℕ → ℕ)
      → f (area_of (before ++ e ∷ after)) (total before)
        ≡ f (encode_all before ++ (encode e ++ behind)) (length (encode_all before))
  read_entry f = ap₂ f area_of-split (sym (length-encode_all before))

  pub e_value_size-area_of :
      IsAttr e → e_value_size (area_of (before ++ e ∷ after)) (total before) ≡ length e.value
  e_value_size-area_of a =
      read_entry e_value_size ∙ e_value_size-encode (encode_all before) e behind a

  pub entry_size-area_of :
      IsAttr e → entry_size (area_of (before ++ e ∷ after)) (total before) ≡ size_of e
  entry_size-area_of a = read_entry entry_size ∙ entry_size-encode (encode_all before) e behind a

  -- Taking out an entry removes the attribute.
  pub remove_entry-area_of :
      IsAttr e
      → total (before ++ e ∷ after) ≤ max_size
      → remove_entry (area_of (before ++ e ∷ after)) (total before) (total (before ++ e ∷ after))
        ≡ area_of (before ++ after)
  unfolding area_of
  remove_entry-area_of a h =
      let p = encode_all before in
      let m = encode_all after in
      let k = area_size - total (before ++ e ∷ after) in
      let last = total (before ++ e ∷ after) in
      ap (λ t. remove_entry t (total before) last) area_of-split
      ∙ ap₂ (remove_entry (p ++ (encode e ++ behind))) (sym (length-encode_all before)) (
          omega
            (arith, total-split before e after, length-encode_all before, length-encode_all after))
      ∙ remove_entry-middle p e m k a
      ∙ sym (append_assoc p m (replicate (size_of e + k) 0))
      ∙ ap₂ (λ t i. t ++ replicate i 0) (sym (encode_all-append before after))
          (omega (arith, h, total-split before e after, total-append before after))
