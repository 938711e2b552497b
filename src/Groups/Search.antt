-- ===== src/Groups/Search.antt =====
-- The search of nvfuse_alloc_dbitmap() goes once round the data blocks of its group: first from the
-- place where it starts to the end, then from the first data block on.
use nvfuse.Prelude.{
  ℕ, zero, suc, ◌+◌, ◌*◌, ◌%◌, ◌^◌, ◌<◌, ◌≤◌, ◌≡◌, refl, sym, ap, subst, ◌∙◌, ◌⊎◌, inl, inr, true,
  arith, List, [], length, eq-cases, lt-cases, lt→ltb,
}
use nvfuse.Bitmap.Bits.{ext2fs_test_bit}
use nvfuse.Groups.Blocks.{Taking, take_blocks}
use nvfuse.Groups.Taken.{nothing, IsTaking, Grown, Ends, tested, counted, round-Ends}
use native.Mathlib.Nat.{mod-eq_of_lt, mod_self}

module _ (n start bg_start : ℕ) where
  abbrev Found : (fuel cnt free_block num next_block : ℕ) → List ℕ → Type 0
  Found = Ends n start bg_start

  -- One round whose block and count are known.
  round_at :
      (fuel cnt f block cnt' num next : ℕ) (bits : List ℕ)
      → tested n start bg_start f ≡ block
      → counted n start bg_start cnt f ≡ cnt'
      → cnt < n
      → start ≤ block
      → block < n
      → n ≤ 8 * length bits
      → 1 ≤ num
      → num < 2 ^ 32
      → ((num' next' : ℕ) (bits' : List ℕ)
          → Grown block bits bits'
          → 1 ≤ num'
          → num' < 2 ^ 32
          → Found fuel cnt' ((block + 1) % n) num' next' bits')
      → Found (suc fuel) cnt f num next bits
  round_at fuel cnt f block cnt' num next bits eb ec l lo hi size one fits rest =
      round-Ends n start bg_start fuel cnt f num next bits (lt→ltb cnt n l)
        (subst (λ b. start ≤ b) (sym eb) lo) (subst (λ b. b < n) (sym eb) hi) size one fits
        (λ num' next' bits' g o h.
          subst (λ b. Found fuel (counted n start bg_start cnt f) ((b + 1) % n) num' next' bits')
            (sym eb)
            (subst (λ c. Found fuel c ((block + 1) % n) num' next' bits') (sym ec)
              (rest num' next' bits' (subst (λ b. Grown b bits bits') eb g) o h)))

  abbrev stop : (free_block next_block : ℕ) → List ℕ → Taking
  stop f next bits = record { bitmap = bits; next_block = next; blocks = []; place = f }

  stopped :
      (f next : ℕ) (bits : List ℕ) {num : ℕ}
      → f < n
      → ((j : ℕ) → start ≤ j → j < n → ext2fs_test_bit j bits ≡ true)
      → IsTaking n start bg_start num next bits (stop f next bits)
  stopped f next bits p full = record {
    taken = nothing;
    at_most = omega arith;
    all_taken = λ few. full;
    place_in = p;
    next_in = inl refl;
  }

  -- The loop ends where its count has reached `n`.
  stops :
      (fuel cnt f num next : ℕ) (bits : List ℕ)
      → n ≤ cnt
      → f < n
      → ((j : ℕ) → start ≤ j → j < n → ext2fs_test_bit j bits ≡ true)
      → Found fuel cnt f num next bits
  unfolding take_blocks
  stops zero cnt f num next bits h p full =
      (stop f next bits, ground arith, stopped f next bits p full)
  stops (suc fuel) cnt f num next bits h p full =
      (stop f next bits, ground arith, stopped f next bits p full)

  -- The second part: the blocks from `origin` on and those before `p` have been seen.
  second_part :
      (fuel cnt p origin num next : ℕ) (bits : List ℕ)
      → cnt + origin + 1 ≡ n + p
      → 1 ≤ start
      → start ≤ p
      → p ≤ origin + 1
      → origin < n
      → n ≤ fuel + cnt
      → n ≤ 8 * length bits
      → 1 ≤ num
      → num < 2 ^ 32
      → ((j : ℕ) → start ≤ j → j < n → (origin ≤ j) ⊎ (j < p) → ext2fs_test_bit j bits ≡ true)
      → Found fuel cnt (p % n) num next bits
  second_part zero cnt p origin num next bits c s lo hi o enough size one fits seen =
      stops zero cnt (p % n) num next bits (omega arith) (omega arith) (λ j js jn.
        elim (lt-cases j p) [
          | inl l ↦ seen j js jn (inr (l.1))
          | inr g ↦ seen j js jn (inl (omega (arith, g.1)))
        ])
  second_part (suc fuel) cnt p origin num next bits c s lo hi o enough size one fits seen =
      elim (lt-cases cnt n) [
        | inr g ↦ stops (suc fuel) cnt (p % n) num next bits (g.1) (omega arith) (λ j js jn.
            elim (lt-cases j p) [
              | inl l ↦ seen j js jn (inr (l.1))
              | inr k ↦ seen j js jn (inl (omega (arith, k.1, g.1)))
            ])
        | inl l ↦
            let small : p < n = omega (arith, l.1) in
            subst (λ f. Found (suc fuel) cnt f num next bits) (sym (mod-eq_of_lt small))
              (round_at fuel cnt p p (cnt + 1) num next bits (ground arith) (ground arith) (l.1) lo
                small size one fits
                (λ num' next' bits' g o' h.
                  second_part fuel (cnt + 1) (p + 1) origin num' next' bits' (omega arith) s
                    (omega arith) (omega (arith, l.1)) o (omega arith) (omega (arith, g.same_size))
                    o' h
                    (λ j js jn d. elim (eq-cases j p) [
                      | inl e ↦ subst (λ i. ext2fs_test_bit i bits' ≡ true) (sym (e.1)) (g.is_set)
                      | inr ne ↦ g.kept j (seen j js jn (earlier j p origin (ne.1) d))
                    ])))
      ]
    where
      earlier : (j p origin : ℕ) → ¬ (j ≡ p) → (origin ≤ j) ⊎ (j < p + 1) → (origin ≤ j) ⊎ (j < p)
      earlier j p origin ne (inl h) = inl h
      earlier j p origin ne (inr h) = inr (omega arith)

  -- The first part: the data blocks from `origin` to `p` have been seen.
  first_part :
      (fuel cnt p origin num next : ℕ) (bits : List ℕ)
      → cnt + origin ≡ p
      → 1 ≤ start
      → 1 ≤ origin
      → start ≤ p
      → start < n
      → origin < n
      → p ≤ n
      → n < 2 ^ 31
      → n ≤ fuel + cnt
      → n ≤ 8 * length bits
      → 1 ≤ num
      → num < 2 ^ 32
      → ((j : ℕ) → origin ≤ j → start ≤ j → j < p → ext2fs_test_bit j bits ≡ true)
      → Found fuel cnt (p % n) num next bits
  first_part zero cnt p origin num next bits c s lo sp sn o hi w enough size one fits seen =
      absurd (omega arith)
  first_part (suc fuel) cnt p origin num next bits c s lo sp sn o hi w enough size one fits seen =
      elim (lt-cases p n) [
        | inl l ↦
            subst (λ f. Found (suc fuel) cnt f num next bits) (sym (mod-eq_of_lt (l.1)))
              (round_at fuel cnt p p (cnt + 1) num next bits (ground arith) (ground arith)
                (omega arith) (omega arith) (l.1) size one fits
                (λ num' next' bits' g o' h.
                  first_part fuel (cnt + 1) (p + 1) origin num' next' bits' (omega arith) s lo
                    (omega arith) sn o (omega (arith, l.1)) w (omega arith)
                    (omega (arith, g.same_size)) o' h
                    (λ j jo js jp. elim (eq-cases j p) [
                      | inl e ↦ subst (λ i. ext2fs_test_bit i bits' ≡ true) (sym (e.1)) (g.is_set)
                      | inr ne ↦ g.kept j (seen j jo js (omega (arith, ne.1)))
                    ])))
        | inr ge ↦
            let last : p ≡ n = omega (arith, ge.1) in
            subst (λ f. Found (suc fuel) cnt f num next bits)
              (sym (ap (λ q. q % n) last ∙ mod_self n))
              (round_at fuel cnt 0 start (cnt + start) num next bits refl (omega arith)
                (omega arith) (omega arith) (omega arith) size one fits
                (λ num' next' bits' g o' h.
                  let seen' : (j : ℕ)
                      → start ≤ j
                      → (origin ≤ j) ⊎ (j < start + 1)
                      → j < n
                      → ext2fs_test_bit j bits' ≡ true =
                    λ j js d jn. elim (eq-cases j start) [
                      | inl q ↦ subst (λ i. ext2fs_test_bit i bits' ≡ true) (sym (q.1)) (g.is_set)
                      | inr ne ↦ g.kept j (seen j (after j (ne.1) js d) js (omega (arith, last)))
                    ] in
                  elim (lt-cases origin start) [
                    | inl early ↦
                        stops fuel (cnt + start) ((start + 1) % n) num' next' bits'
                          (omega (arith, early.1, last)) (omega arith)
                          (λ j js jn. seen' j js (inl (omega (arith, early.1))) jn)
                    | inr late ↦
                        second_part fuel (cnt + start) (start + 1) origin num' next' bits'
                          (omega (arith, last)) s (omega arith) (omega (arith, late.1)) o
                          (omega arith) (omega (arith, g.same_size)) o' h
                          (λ j js jn d. seen' j js d jn)
                  ]))
      ]
    where
      after : (j : ℕ) → ¬ (j ≡ start) → start ≤ j → (origin ≤ j) ⊎ (j < start + 1) → origin ≤ j
      after j ne js (inl h) = h
      after j ne js (inr h) = absurd (omega arith)

  -- A search for `num` blocks from a data block, or from block 0, ends. It takes blocks that were
  -- free, one after the other and at most `num`; and where it takes fewer, no data block is free.
  pub take_blocks-IsTaking :
      (fuel from num next : ℕ) (bits : List ℕ)
      → 1 ≤ start
      → start < n
      → n < 2 ^ 31
      → n ≤ fuel
      → n ≤ 8 * length bits
      → 1 ≤ num
      → num < 2 ^ 32
      → from < n
      → (start ≤ from) ⊎ (from ≡ 0)
      → Found (suc fuel) 0 from num next bits
  take_blocks-IsTaking fuel from num next bits s sn w enough size one fits fn (inl data_block) =
      subst (λ f. Found (suc fuel) 0 f num next bits) (mod-eq_of_lt fn)
        (first_part (suc fuel) 0 from from num next bits (omega arith) s (omega arith) data_block sn
          fn (omega arith) w (omega arith) size one fits (λ j jo js jp. absurd (omega arith)))
  take_blocks-IsTaking fuel from num next bits s sn w enough size one fits fn (inr at_zero) =
      subst (λ f. Found (suc fuel) 0 f num next bits) (sym at_zero)
        (round_at fuel 0 0 start start num next bits refl (omega arith) (omega arith) (omega arith)
          sn size one fits
          (λ num' next' bits' g o' h.
            first_part fuel start (start + 1) 1 num' next' bits' (omega arith) s (omega arith)
              (omega arith) sn (omega arith) (omega arith) w (omega arith)
              (omega (arith, g.same_size)) o' h
              (λ j jo js jp.
                let same : start ≡ j = omega arith in
                subst (λ i. ext2fs_test_bit i bits' ≡ true) same (g.is_set))))
