-- ===== src/Reactor/Window.antt =====
-- The slots of a ring from its tail on, and what a write to one of the slots does to them.
use nvfuse.Prelude.{
  ℕ, zero, suc, ◌+◌, ◌-◌, ◌%◌, ◌≤◌, ◌<◌, ◌≡◌, ◌≢◌, refl, ap, ap₂, ◌∙◌, inl, inr, Option, none, List,
  [], ◌∷◌, ◌++◌, length, get_or, set, ltb, if◌then◌else◌, arith, get_or-set_self, get_or-set_ne,
  lt-cases,
}
use native.Mathlib.Nat.{mod-eq_of_lt, mod_self}

-- The slot `m` behind slot `t` in a ring of `q`, for `m` at most `q`.
abbrev pub wrap : (q t m : ℕ) → ℕ
wrap q t m = if ltb (t + m) q then t + m else t + m - q

-- `n` slots from slot `t` on.
abbrev pub window : List (Option ℕ) → (q t n : ℕ) → List (Option ℕ)
window slots q t zero = []
window slots q t (suc n) = get_or slots t none ∷ window slots q (wrap q t 1) n

pub length-window : (slots : List (Option ℕ)) (q t n : ℕ) → length (window slots q t n) ≡ n
length-window slots q t zero = refl
length-window slots q t (suc n) = ap suc (length-window slots q (wrap q t 1) n)

-- The code's step round the ring.
pub step-wrap : (q t : ℕ) → t < q → (t + 1) % q ≡ wrap q t 1
step-wrap q t h = elim (lt-cases (t + 1) q) [
  | inl l ↦ mod-eq_of_lt l.1 ∙ ground arith
  | inr l ↦ ap (λ x. x % q) (omega arith) ∙ mod_self q ∙ ground arith
]

pub wrap-lt : (q t m : ℕ) → t < q → m ≤ q → wrap q t m < q
wrap-lt q t m h k = ground arith

pub wrap-next : (q t m : ℕ) → t < q → m < q → wrap q t (suc m) ≡ wrap q (wrap q t 1) m
wrap-next q t m h k = ground arith

wrap-ne : (q t m : ℕ) → t < q → m < q → 0 < m → wrap q t m ≢ t
wrap-ne q t m h k p = ground arith

-- A write to a slot behind the window is not seen.
pub window-set_outside :
    (slots : List (Option ℕ)) (q t n m i : ℕ) (v : Option ℕ)
    → t < q
    → n ≤ m
    → m < q
    → i ≡ wrap q t m
    → window (set slots i v) q t n ≡ window slots q t n
window-set_outside slots q t zero m i v h k b e = refl
window-set_outside slots q t (suc n) zero i v h k b e = absurd (omega arith)
window-set_outside slots q t (suc n) (suc m) i v h k b e =
    ap₂ ◌∷◌ (get_or-set_ne slots i t v none (ground (arith, wrap-ne q t (suc m)))) (
      window-set_outside slots q (wrap q t 1) n m i v (wrap-lt q t 1 h (omega arith)) (omega arith)
        (omega arith) (e ∙ wrap-next q t m h (omega arith)))

-- A write to the slot just behind the window makes the window longer.
pub window-set_end :
    (slots : List (Option ℕ)) (q t n i : ℕ) (v : Option ℕ)
    → q ≤ length slots
    → t < q
    → n < q
    → i ≡ wrap q t n
    → window (set slots i v) q t (suc n) ≡ window slots q t n ++ v ∷ []
window-set_end slots q t zero i v s h b e =
    ap (λ x. x ∷ [])
      (ap (λ j. get_or (set slots j v) t none) (e ∙ ground arith)
        ∙ get_or-set_self slots t v none (omega arith))
window-set_end slots q t (suc n) i v s h b e =
    ap₂ ◌∷◌ (get_or-set_ne slots i t v none (ground (arith, wrap-ne q t (suc n)))) (
      window-set_end slots q (wrap q t 1) n i v s (wrap-lt q t 1 h (omega arith)) (omega arith)
        (e ∙ wrap-next q t n h (omega arith)))
