-- ===== src/Scan.antt =====
-- The circular search of the sources, `while (!test(i)) i = (i + 1) % n;`, over `n` slots. It is
-- how the control plane looks for a container and how a block group looks for a free inode.
use nvfuse.Prelude.{
  ℕ, zero, suc, ◌+◌, ◌-◌, ◌%◌, ◌<◌, ◌≡◌, refl, ◌⊎◌, inl, inr, Bool, true, false, Option, none, some,
  arith, leb, if◌then◌else◌, Bool-cases, lt-cases,
}
use native.Mathlib.Nat.{mod-eq_of_lt, mod_self}

-- `none`: every one of the `fuel` slots looked at failed the test.
unfoldable pub scan : (ℕ → Bool) → ℕ → ℕ → ℕ → Option ℕ
scan test n zero i = none
scan test n (suc fuel) i = elim (test i) [ true ↦ some i | false ↦ scan test n fuel ((i + 1) % n) ]

-- How many steps lead from slot `i` to slot `j`.
ahead : ℕ → ℕ → ℕ → ℕ
ahead n i j = if leb i j then j - i else n + j - i

module _ (test : ℕ → Bool) (n : ℕ) where
  next-lt : (i : ℕ) → i < n → (i + 1) % n < n
  next-lt i h = omega arith

  next-cases :
      (i : ℕ) → i < n → (i + 1 < n) × ((i + 1) % n ≡ i + 1) ⊎ (i + 1 ≡ n) × ((i + 1) % n ≡ 0)
  next-cases i h = elim (lt-cases (i + 1) n) [
    | inl l ↦ inl (l.1, mod-eq_of_lt l.1)
    | inr g ↦ let e : i + 1 ≡ n = omega arith in inr (e, rw e (mod_self n))
  ]

  -- The slot found passes the test and is in range.
  pub scan_sound :
      (fuel i : ℕ) {j : ℕ} → i < n → scan test n fuel i ≡ some j → (test j ≡ true) × (j < n)
  unfolding scan
  scan_sound zero i h e = cc
  scan_sound (suc fuel) i {j} h e = elim (Bool-cases (test i)) [
    | inl t ↦ ground arith
    | inr f ↦ scan_sound fuel ((i + 1) % n) (next-lt i h) (ground arith)
  ]

  ahead-next : (i j : ℕ) → i < n → j < n → ¬ (i ≡ j) → suc (ahead n ((i + 1) % n) j) ≡ ahead n i j
  unfolding ahead
  ahead-next i j hi hj ne = elim (next-cases i hi) [
    | inl c ↦ rw (c.1) (ground arith)
    | inr c ↦ rw (c.1) (ground arith)
  ]

  ahead-lt : (i j : ℕ) → i < n → j < n → ahead n i j < n
  unfolding ahead
  ahead-lt i j hi hj = ground arith

  -- A slot that passes within reach is found, or one before it.
  scan-reach :
      (fuel i j : ℕ)
      → i < n
      → j < n
      → test j ≡ true
      → ahead n i j < fuel
      → (k : ℕ) × (scan test n fuel i ≡ some k)
  unfolding scan
  scan-reach zero i j hi hj t h = absurd (omega arith)
  scan-reach (suc fuel) i j hi hj t h = elim (Bool-cases (test i)) [
    | inl y ↦ (i, rw (y, scan))
    | inr f ↦
        let (k, e) =
          scan-reach fuel ((i + 1) % n) j (next-lt i hi) hj t
            (omega (arith, ahead-next i j hi hj (λ q. cc))) in
        (k, rw (f, scan) e)
  ]

  -- One round is enough fuel: if some slot passes, one is found.
  pub scan_complete :
      (i j : ℕ) → i < n → j < n → test j ≡ true → (k : ℕ) × (scan test n n i ≡ some k)
  scan_complete i j hi hj t = scan-reach n i j hi hj t (ahead-lt i j hi hj)

  -- If a whole round finds nothing, no slot passes.
  pub scan-none : (i j : ℕ) → i < n → j < n → scan test n n i ≡ none → test j ≡ false
  scan-none i j hi hj e = elim (Bool-cases (test j)) [
    | inl t ↦ let (k, f) = scan_complete i j hi hj t in absurd (cc)
    | inr f ↦ f
  ]

  -- If no slot passes, no amount of fuel finds one.
  pub scan-hopeless :
      (fuel i : ℕ) → i < n → ((j : ℕ) → j < n → test j ≡ false) → scan test n fuel i ≡ none
  unfolding scan
  scan-hopeless zero i h f = refl
  scan-hopeless (suc fuel) i h f =
      rw (f i h, scan) (scan-hopeless fuel ((i + 1) % n) (next-lt i h) f)
