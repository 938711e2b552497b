-- ===== src/Xattr/Set.antt =====
-- nvfuse_set_xattr() on the attributes of an inode, behind its checks.

use nvfuse.Prelude.{
  ℕ, ◌+◌, ◌-◌, ◌≤◌, ◌≡◌, sym, ap, ap₂, subst, ◌∙◌, inl, inr, Bool, true, none, some, arith, List,
  [], ◌∷◌, ◌++◌, length, ltb, if◌then◌else◌, lt-cases,
}
use nvfuse.Prelude.Int.{ℤ, pos, negsuc}
use nvfuse.Run.{Run, ok, if-ok}
use nvfuse.Xattr.Defs.{
  area_size, max_size, e_value_size, entry_size, found, ended, find, find_last, remove_entry,
  write_entry, sub32, set_in_area,
}
use nvfuse.Xattr.Format.{Attr, size_of, total, area_of, IsAttr, AllAttr}
use nvfuse.Xattr.Walk.{has_name, find-area_of, find_last-total}
use nvfuse.Xattr.Spec.{
  lookup_attr, remove_attr, Split, IsAbsent, Split-cases, total-append, total-split, AllAttr-split,
  write_entry-area_of, remove_entry-area_of, e_value_size-area_of, entry_size-area_of,
}

-- What is left for new entries.
abbrev pub room : List Attr → ℕ
room es = max_size - total es

-- What `set` makes of a list of attributes: the return value, and the new list. A name that is new
-- needs room for its entry. One that is there needs room for the growth of the value, a difference
-- of unsigned numbers; the old entry is taken out, and the new one put last.
unfoldable pub set_attr : List Attr → Attr → ℤ × List Attr
set_attr es e = elim (lookup_attr e.name es) [
  | none ↦ if ltb (room es) (size_of e) then (negsuc 0, es) else (pos 0, es ++ e ∷ [])
  | some old ↦
      if ltb (room es) (sub32 (length e.value) (length old.value))
      then (negsuc 0, es)
      else (pos 0, remove_attr e.name es ++ e ∷ [])
]

set-ended :
    (area name value : List ℕ) (last : ℕ)
    → find area name area_size 0 ≡ ok (ended last)
    → set_in_area area name value
      ≡ ok (
          if ltb (sub32 max_size last) (4 + 4 + length name + 1 + length value + 1)
          then (negsuc 0, area)
          else (pos 0, write_entry area last name value))
unfolding set_in_area
set-ended area name value last f = rw f (if-ok _ _ _)

set-found :
    (area name value : List ℕ) (here last : ℕ)
    → find area name area_size 0 ≡ ok (found here)
    → find_last area area_size 0 ≡ ok last
    → set_in_area area name value
      ≡ ok (
          if ltb (sub32 max_size last) (sub32 (length value) (e_value_size area here))
          then (negsuc 0, area)
          else (
            pos 0,
            write_entry (remove_entry area here last) (last - entry_size area here) name value,
          ))
unfolding set_in_area
set-found area name value here last f l = rw (f, l) (if-ok _ _ _)

-- The list that a result stands for, as bytes.
abbrev pub in_bytes : ℤ × List Attr → Run (ℤ × List ℕ)
in_bytes r = ok (r.0, area_of r.1)

pub find_last-area_of :
    (es : List Attr)
    → AllAttr es
    → total es ≤ max_size
    → find_last (area_of es) area_size 0 ≡ ok (total es)
unfolding area_of
find_last-area_of es a h =
    find_last-total es [] (area_size - total es) area_size a (omega arith) (omega arith)
      (omega arith)
    ∙ ap (λ o. ok o) (omega arith)

set_attr-new :
    (es : List Attr) (e : Attr)
    → lookup_attr e.name es ≡ none
    → set_attr es e ≡ (if ltb (room es) (size_of e) then (negsuc 0, es) else (pos 0, es ++ e ∷ []))
unfolding set_attr
set_attr-new es e q = rw (q, set_attr)

set_attr-old :
    (es : List Attr) (e old : Attr)
    → lookup_attr e.name es ≡ some old
    → set_attr es e ≡ (
        if ltb (room es) (sub32 (length e.value) (length old.value))
        then (negsuc 0, es)
        else (pos 0, remove_attr e.name es ++ e ∷ []))
unfolding set_attr
set_attr-old es e old q = rw (q, set_attr)

-- Both sides of a test, once it is known.
abbrev choice {ℓ} : {A : Type ℓ} → Bool → A → A → Run A
choice b x y = ok (if b then x else y)

room_eq : (es : List Attr) → total es ≤ max_size → sub32 max_size (total es) ≡ room es
room_eq es h = omega arith

-- A test that both sides make decides between a refusal that changes nothing and a change.
decide :
    (es es' : List Attr) (area' : List ℕ) {x y : ℕ} {run : Run (ℤ × List ℕ)} {spec : ℤ × List Attr}
    → run ≡ choice (ltb x y) (negsuc 0, area_of es) (pos 0, area')
    → spec ≡ (if ltb x y then (negsuc 0, es) else (pos 0, es'))
    → (y ≤ x → area' ≡ area_of es')
    → run ≡ in_bytes spec
decide es es' area' {x} {y} p q same = elim (lt-cases x y) [
  | inl l ↦
      p
      ∙ ap (λ b. choice b (negsuc 0, area_of es) (pos 0, area')) l.0
      ∙ sym (ap in_bytes (q ∙ ap (λ b. if b then (negsuc 0, es) else (pos 0, es')) l.0))
  | inr g ↦
      p
      ∙ ap (λ b. choice b (negsuc 0, area_of es) (pos 0, area')) g.0
      ∙ ap (λ t. ok (pos 0, t)) (same g.1)
      ∙ sym (ap in_bytes (q ∙ ap (λ b. if b then (negsuc 0, es) else (pos 0, es')) g.0))
]

set-absent :
    (es : List Attr) (e : Attr)
    → AllAttr es
    → total es ≤ max_size
    → IsAbsent e.name es 0
    → set_in_area (area_of es) e.name e.value ≡ in_bytes (set_attr es e)
set-absent es e a h n =
    let f = find-area_of e.name es a h ∙ ap (λ p. ok p) (n.place ∙ ap ended (omega arith)) in
    let area' = write_entry (area_of es) (total es) e.name e.value in
    decide es (es ++ e ∷ []) area' {x = room es} {y = size_of e}
      (set-ended (area_of es) e.name e.value (total es) f
        ∙ ap (λ r. choice (ltb r (size_of e)) (negsuc 0, area_of es) (pos 0, area')) (room_eq es h))
      (set_attr-new es e (n.looked_up)) (λ g. write_entry-area_of es e (omega arith))

has_name-length : (name : List ℕ) (e : Attr) → has_name name e ≡ true → length e.name ≡ length name
has_name-length name e h = ground arith

module _ (before : List Attr) (old : Attr) (after : List Attr) (e : Attr) where
  abbrev whole : List Attr
  whole = before ++ old ∷ after

  -- Where the growth of the value fits, the new entry fits in place of the old one.
  replaced-fits :
      IsAttr old
      → IsAttr e
      → length old.name ≡ length e.name
      → total whole ≤ max_size
      → sub32 (length e.value) (length old.value) ≤ room whole
      → total (before ++ after) + size_of e ≤ max_size
  replaced-fits a b n h g =
      omega (
        arith,
        a.value_short,
        b.value_short,
        total-split before old after,
        total-append before after,
      )

  set-replaces :
      IsAttr old
      → IsAttr e
      → length old.name ≡ length e.name
      → total whole ≤ max_size
      → find (area_of whole) e.name area_size 0 ≡ ok (found (total before))
      → find_last (area_of whole) area_size 0 ≡ ok (total whole)
      → lookup_attr e.name whole ≡ some old
      → remove_attr e.name whole ≡ before ++ after
      → set_in_area (area_of whole) e.name e.value ≡ in_bytes (set_attr whole e)
  set-replaces a b n h f l q r =
      let here = total before in
      let area = area_of whole in
      let area' =
        write_entry (remove_entry area here (total whole)) (total whole - size_of old) e.name
          e.value in
      decide whole ((before ++ after) ++ e ∷ []) area' {x = room whole}
        {y = sub32 (length e.value) (length old.value)}
        (set-found area e.name e.value here (total whole) f l
          ∙ ap
              (λ k.
                choice (ltb k (sub32 (length e.value) (e_value_size area here))) (negsuc 0, area)
                  (
                    pos 0,
                    write_entry (remove_entry area here (total whole))
                        (total whole - entry_size area here) e.name e.value,
                  ))
              (room_eq whole h)
          ∙ ap₂
              (λ v z.
                choice (ltb (room whole) (sub32 (length e.value) v)) (negsuc 0, area)
                  (
                    pos 0,
                    write_entry (remove_entry area here (total whole)) (total whole - z) e.name
                        e.value,
                  ))
              (e_value_size-area_of before old after a) (entry_size-area_of before old after a))
        (set_attr-old whole e old q
          ∙ ap
              (λ t.
                if ltb (room whole) (sub32 (length e.value) (length old.value))
                then (negsuc 0, whole)
                else (pos 0, t ++ e ∷ []))
              r)
        (λ g.
          ap₂ (λ t o. write_entry t o e.name e.value) (remove_entry-area_of before old after a h)
            (omega (arith, total-split before old after, total-append before after))
          ∙ write_entry-area_of (before ++ after) e (replaced-fits a b n h g))

set-present :
    (es : List Attr) (e : Attr)
    → AllAttr es
    → IsAttr e
    → total es ≤ max_size
    → Split e.name es 0
    → set_in_area (area_of es) e.name e.value ≡ in_bytes (set_attr es e)
set-present es e a b h s =
    subst (λ t. set_in_area (area_of t) e.name e.value ≡ in_bytes (set_attr t e)) (sym (s.parts))
      (set-replaces (s.before) (s.here) (s.after) e
        (AllAttr-split (s.before) (s.here) (s.after) (subst AllAttr (s.parts) a)).0 b
        (has_name-length e.name (s.here) (s.named)) (subst (λ t. total t ≤ max_size) (s.parts) h)
        (subst (λ t. find (area_of t) e.name area_size 0 ≡ ok (found (total (s.before)))) (s.parts)
          (find-area_of e.name es a h ∙ ap (λ p. ok p) (s.place ∙ ap found (omega arith))))
        (subst (λ t. find_last (area_of t) area_size 0 ≡ ok (total t)) (s.parts)
          (find_last-area_of es a h))
        (subst (λ t. lookup_attr e.name t ≡ some (s.here)) (s.parts) (s.looked_up))
        (subst (λ t. remove_attr e.name t ≡ s.before ++ s.after) (s.parts) (s.removed)))

-- The part behind the checks.
pub set_in_area_lem :
    (es : List Attr) (e : Attr)
    → AllAttr es
    → IsAttr e
    → total es ≤ max_size
    → set_in_area (area_of es) e.name e.value ≡ in_bytes (set_attr es e)
set_in_area_lem es e a b h = elim (Split-cases e.name es 0) [
  | inl n ↦ set-absent es e a h n
  | inr s ↦ set-present es e a b h s
]
