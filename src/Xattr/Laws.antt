-- ===== src/Xattr/Laws.antt =====
-- What the calls of nvfuse_xattr.c keep, and how they fit together.
use nvfuse.Prelude.{
  lt-cases, ℕ, ◌+◌, ◌≤◌, ◌<◌, ◌≡◌, sym, ap, subst, ◌∙◌, inl, inr, Bool, true, false, none, some,
  arith, List, [], ◌∷◌, ◌++◌, length, ltb, if◌then◌else◌, lt→ltb, Bool-cases, Option-cases,
}
use nvfuse.Prelude.Int.{pos, negsuc}
use nvfuse.Run.{ok}
use nvfuse.Xattr.Defs.{max_size, sub32, set_in_area}
use nvfuse.Xattr.Format.{Attr, size_of, total, area_of, IsAttr, AllAttr}
use nvfuse.Xattr.Walk.{has_name}
use nvfuse.Xattr.Spec.{lookup_attr, remove_attr, total-snoc, AllAttr-snoc}
use nvfuse.Xattr.Set.{room, set_attr, in_bytes, set_in_area_lem}

some_inj : {a b : Attr} → some a ≡ some b → a ≡ b
some_inj h = cc

lookup_attr-IsAttr :
    (name : List ℕ) (es : List Attr) (old : Attr)
    → AllAttr es
    → lookup_attr name es ≡ some old
    → IsAttr old
unfolding lookup_attr
lookup_attr-IsAttr name [] old a q = absurd cc
lookup_attr-IsAttr name (x ∷ xs) old a q = elim (Bool-cases (has_name name x)) [
  | inl y ↦ subst IsAttr (some_inj (rw y at q)) a.0
  | inr n ↦ lookup_attr-IsAttr name xs old a.1 (rw n at q)
]

has_name-length : (name : List ℕ) (x : Attr) → has_name name x ≡ true → length x.name ≡ length name
unfolding has_name
has_name-length name x h = ground arith

lookup_attr-length :
    (name : List ℕ) (es : List Attr) (old : Attr)
    → lookup_attr name es ≡ some old
    → length old.name ≡ length name
unfolding lookup_attr
lookup_attr-length name [] old q = absurd cc
lookup_attr-length name (x ∷ xs) old q = elim (Bool-cases (has_name name x)) [
  | inl y ↦
      subst (λ t. length t.name ≡ length name) (some_inj (rw y at q)) (has_name-length name x y)
  | inr n ↦ lookup_attr-length name xs old (rw n at q)
]

-- The test of `set` is an unsigned one: a shorter value asks for more room than there is.
shrink_test : (k new old : ℕ) → new < old → old ≤ 512 → k ≤ max_size → ltb k (sub32 new old) ≡ true
shrink_test k new old s b h = lt→ltb k (sub32 new old) (omega arith)

set_attr-shrink :
    (es : List Attr) (e old : Attr)
    → lookup_attr e.name es ≡ some old
    → ltb (room es) (sub32 (length e.value) (length old.value)) ≡ true
    → set_attr es e ≡ (negsuc 0, es)
unfolding set_attr
set_attr-shrink es e old q t = rw (q, set_attr, t)

-- If an attribute with the name is there and its value is longer than the new one, `set` returns
-- -1 and changes no byte, however much room is left.
pub set_in_area-shrink :
    (es : List Attr) (e old : Attr)
    → AllAttr es
    → IsAttr e
    → total es ≤ max_size
    → lookup_attr e.name es ≡ some old
    → length e.value < length old.value
    → set_in_area (area_of es) e.name e.value ≡ ok (negsuc 0, area_of es)
set_in_area-shrink es e old a i h q s =
    set_in_area_lem es e a i h
    ∙ ap in_bytes (
        set_attr-shrink es e old q (
          shrink_test (room es) (length e.value) (length old.value) s
            ((lookup_attr-IsAttr e.name es old a q).value_short) (omega arith)))

-- The two conditions of an inode's attributes.
pub record IsValid (es : List Attr) : Type 0 where
  pub attrs : AllAttr es
  pub fit : total es ≤ max_size

remove_attr-sizes :
    (es : List Attr) (name : List ℕ) (old : Attr)
    → AllAttr es
    → lookup_attr name es ≡ some old
    → AllAttr (remove_attr name es) × (total (remove_attr name es) + size_of old ≡ total es)
unfolding lookup_attr remove_attr total
remove_attr-sizes [] name old a q = absurd cc
remove_attr-sizes (x ∷ xs) name old a q = elim (Bool-cases (has_name name x)) [
  | inl y ↦ rw y (a.1, ap (λ t. total xs + size_of t) (sym (some_inj (rw y at q))) ∙ omega arith)
  | inr n ↦
      let r = remove_attr-sizes xs name old a.1 (rw n at q) in rw n ((a.0, r.0), omega (arith, r.1))
]

grown :
    (k new old : ℕ)
    → new ≤ 512
    → old ≤ 512
    → k ≤ max_size
    → ltb k (sub32 new old) ≡ false
    → new ≤ k + old
grown k new old a b c t = ground arith

set_attr_cases :
    (es : List Attr) (e : Attr) (old : Attr) (t : Bool)
    → lookup_attr e.name es ≡ some old
    → ltb (room es) (sub32 (length e.value) (length old.value)) ≡ t
    → set_attr es e ≡ (if t then (negsuc 0, es) else (pos 0, remove_attr e.name es ++ e ∷ []))
unfolding set_attr
set_attr_cases es e old t q h = rw (q, set_attr, h)

set_attr_new :
    (es : List Attr) (e : Attr) (t : Bool)
    → lookup_attr e.name es ≡ none
    → ltb (room es) (size_of e) ≡ t
    → set_attr es e ≡ (if t then (negsuc 0, es) else (pos 0, es ++ e ∷ []))
unfolding set_attr
set_attr_new es e t q h = rw (q, set_attr, h)

-- An attribute that the interface accepts keeps the list valid, whether `set` takes it or not.
pub set_attr-IsValid :
    (es : List Attr) (e : Attr) → IsValid es → IsAttr e → IsValid ((set_attr es e).1)
set_attr-IsValid es e v i = elim (Option-cases (lookup_attr e.name es)) [
  | inl n ↦ elim (lt-cases (room es) (size_of e)) [
    | inl l ↦ subst (λ r. IsValid (r.1)) (sym (set_attr_new es e true n l.0)) v
    | inr l ↦
        subst (λ r. IsValid (r.1)) (sym (set_attr_new es e false n l.0))
          (record {
            attrs = AllAttr-snoc es e (v.attrs) i;
            fit = omega (arith, l.1, v.fit, total-snoc es e);
          })
  ]
  | inr o ↦
      let r = remove_attr-sizes es e.name o.0 (v.attrs) o.1 in
      elim (lt-cases (room es) (sub32 (length e.value) (length (o.0).value))) [
        | inl l ↦ subst (λ r. IsValid (r.1)) (sym (set_attr_cases es e o.0 true o.1 l.0)) v
        | inr l ↦
            subst (λ r. IsValid (r.1)) (sym (set_attr_cases es e o.0 false o.1 l.0))
              (record {
                attrs = AllAttr-snoc (remove_attr e.name es) e r.0 i;
                fit =
                    replaced es e o.0 v i (lookup_attr-IsAttr e.name es o.0 (v.attrs) o.1) o.1 r.1
                      l.0;
              })
      ]
]
  where
    replaced :
        (es : List Attr) (e old : Attr)
        → IsValid es
        → IsAttr e
        → IsAttr old
        → lookup_attr e.name es ≡ some old
        → total (remove_attr e.name es) + size_of old ≡ total es
        → ltb (room es) (sub32 (length e.value) (length old.value)) ≡ false
        → total (remove_attr e.name es ++ e ∷ []) ≤ max_size
    replaced es e old v i j q z t = omega (
      arith,
      total-snoc (remove_attr e.name es) e,
      lookup_attr-length e.name es old q,
      z,
      v.fit,
      grown (room es) (length e.value) (length old.value) (i.value_short) (j.value_short)
          (omega arith) t,
    )
