-- ===== src/Xattr/Remove.antt =====
-- nvfuse_remove_xattr() on the attributes of an inode.
use nvfuse.Prelude.{
  ℕ, ◌+◌, ◌-◌, ◌≤◌, ◌≡◌, ◌≢◌, sym, ap, ap₂, subst, ◌∙◌, inl, inr, false, none, some, arith, List,
  ◌∷◌, ◌++◌, ◌==◌, if◌then◌else◌,
}
use nvfuse.Prelude.Int.{ℤ, pos, negsuc}
use nvfuse.Run.{ok}
use nvfuse.Xattr.Defs.{
  area_size, max_size, found, ended, find, find_last, remove_entry, remove_in_area,
}
use nvfuse.Xattr.Format.{Attr, encode_all, total, area_of, AllAttr, length-encode_all}
use nvfuse.Xattr.Walk.{find-area_of, find_last-total}
use nvfuse.Xattr.Spec.{
  lookup_attr, remove_attr, Split-cases, total-split, total-append, AllAttr-split, area_of-prefix,
  remove_entry-area_of, AllAttr-suffix,
}
use nvfuse.Xattr.Set.{in_bytes}

-- What `remove` makes of a list of attributes.
unfoldable pub drop_attr : List Attr → List ℕ → ℤ × List Attr
drop_attr es name = elim (lookup_attr name es) [
  | none ↦ (negsuc 0, es)
  | some _ ↦ (pos 0, remove_attr name es)
]

remove-ended :
    (area name : List ℕ) (last : ℕ)
    → find area name area_size 0 ≡ ok (ended last)
    → remove_in_area area name ≡ ok (negsuc 0, area)
unfolding remove_in_area
remove-ended area name last f = rw f

ne_test : (x y : ℕ) → x ≢ y → (x == y) ≡ false
ne_test x y h = ground arith

remove-found :
    (area name : List ℕ) (here last : ℕ)
    → find area name area_size 0 ≡ ok (found here)
    → find_last area area_size here ≡ ok last
    → last ≢ here
    → remove_in_area area name ≡ ok (pos 0, remove_entry area here last)
unfolding remove_in_area
remove-found area name here last f l ne =
    rw (f, l)
      (ap (λ b. ok (pos 0, if b then area else remove_entry area here last)) (ne_test last here ne))

drop_attr-old :
    (es : List Attr) (name : List ℕ) (old : Attr)
    → lookup_attr name es ≡ some old
    → drop_attr es name ≡ (pos 0, remove_attr name es)
unfolding drop_attr
drop_attr-old es name old q = rw (q, drop_attr)

drop_attr-none :
    (es : List Attr) (name : List ℕ)
    → lookup_attr name es ≡ none
    → drop_attr es name ≡ (negsuc 0, es)
unfolding drop_attr
drop_attr-none es name q = rw (q, drop_attr)

module _ (before : List Attr) (old : Attr) (after : List Attr) where
  abbrev whole : List Attr
  whole = before ++ old ∷ after

  -- The walk to the end mark that begins at the entry itself.
  find_last-here :
      AllAttr whole
      → total whole ≤ max_size
      → find_last (area_of whole) area_size (total before) ≡ ok (total whole)
  find_last-here a h =
      ap₂ (λ t o. find_last t area_size o) (area_of-prefix before (old ∷ after))
        (sym (length-encode_all before))
      ∙ find_last-total (old ∷ after) (encode_all before) (area_size - total whole) area_size
          (AllAttr-suffix before (old ∷ after) a)
          (omega (arith, length-encode_all before, total-append before (old ∷ after))) (omega arith)
          (omega (arith, total-append before (old ∷ after)))
      ∙ ap (λ o. ok o) (omega (arith, length-encode_all before, total-append before (old ∷ after)))

  remove-whole :
      (name : List ℕ)
      → AllAttr whole
      → total whole ≤ max_size
      → find (area_of whole) name area_size 0 ≡ ok (found (total before))
      → lookup_attr name whole ≡ some old
      → remove_attr name whole ≡ before ++ after
      → remove_in_area (area_of whole) name ≡ in_bytes (drop_attr whole name)
  remove-whole name a h f q r =
      remove-found (area_of whole) name (total before) (total whole) f (find_last-here a h)
        (omega (arith, total-split before old after))
      ∙ ap (λ t. ok (pos 0, t))
          (remove_entry-area_of before old after (AllAttr-split before old after a).0 h)
      ∙ sym (ap in_bytes (drop_attr-old whole name old q ∙ ap (λ t. (pos 0, t)) r))

-- On an inode that holds a list of attributes within the limit, `remove` takes the first attribute
-- with the name out of the list and returns 0, or returns -1 and changes no byte if there is none.
pub remove_in_area_lem :
    (es : List Attr) (name : List ℕ)
    → AllAttr es
    → total es ≤ max_size
    → remove_in_area (area_of es) name ≡ in_bytes (drop_attr es name)
remove_in_area_lem es name a h = elim (Split-cases name es 0) [
  | inl n ↦
      remove-ended (area_of es) name (0 + total es)
        (find-area_of name es a h ∙ ap (λ p. ok p) (n.place))
      ∙ sym (ap in_bytes (drop_attr-none es name (n.looked_up)))
  | inr s ↦
      subst (λ t. remove_in_area (area_of t) name ≡ in_bytes (drop_attr t name)) (sym (s.parts))
        (remove-whole (s.before) (s.here) (s.after) name (subst AllAttr (s.parts) a)
          (subst (λ t. total t ≤ max_size) (s.parts) h)
          (subst (λ t. find (area_of t) name area_size 0 ≡ ok (found (total (s.before)))) (s.parts)
            (find-area_of name es a h ∙ ap (λ p. ok p) (s.place ∙ ap found (omega arith))))
          (subst (λ t. lookup_attr name t ≡ some (s.here)) (s.parts) (s.looked_up))
          (subst (λ t. remove_attr name t ≡ s.before ++ s.after) (s.parts) (s.removed)))
]
