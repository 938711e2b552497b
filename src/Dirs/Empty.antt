-- ===== src/Dirs/Empty.antt =====
-- What nvfuse_find_empty_dentry() in nvfuse_core.c finds in a directory without gaps.
use nvfuse.Prelude.{
  ℕ, zero, suc, ◌+◌, ◌-◌, ◌*◌, ◌/◌, ◌%◌, ◌<◌, ◌≤◌, ◌≡◌, refl, ap, ◌∙◌, inl, inr, Bool, true, false,
  some, ◌++◌, length, replicate, arith, ◌==◌, if◌then◌else◌, lt-cases, eq-cases, length-append,
  length-replicate, block_of_offset, get_or-append_left, get_or-append_right, get_or-replicate, ltb,
  ◌^◌,
}
use nvfuse.Run.{ok, ◌>>=◌}
use nvfuse.Dirs.Defs.{
  u32_mod, empty_entry, Dir, dir_is_invalid, Search, search_blocks, find_from, find_empty_dentry,
  max_blocks, s32_rounds,
}
use nvfuse.Dirs.Compact.{
  entry, IsCompact, HasRoom, next_entry, first_entry, search_blocks-here, search_blocks-full,
}
use native.Mathlib.Nat.{mod-lt, div-add-mod', lt_of_mul-lt-mul_right}

below_test : (a b : ℕ) → a < b → ltb a b ≡ true
below_test a b h = ground arith

s32_rounds_lem : (n : ℕ) → n < 2 ^ 31 → s32_rounds n ≡ n
unfolding s32_rounds
s32_rounds_lem n h = ground arith

module _ {Index : Type 0} (per_block : ℕ) (positive : 1 ≤ per_block) (few : per_block < u32_mod)
    (can_allocate : ℕ → Bool) where
  abbrev grown : Dir Index → Dir Index
  grown d = record d { entries = d.entries ++ replicate per_block empty_entry }

  pub num_blocks :
      (d : Dir Index) (v : IsCompact per_block d) → length d.entries / per_block ≡ v.blocks
  num_blocks d v =
      ap (λ x. x / per_block) (v.whole ∙ omega arith)
      ∙ block_of_offset per_block v.blocks 0 positive

  -- Room for another block: the number of entries stays a u32, and i_size is below MAX_FILE_SIZE.
  pub record IsSmall (d : Dir Index) : Type 0 where
    pub counted : length d.entries + per_block < u32_mod
    pub below_max : length d.entries < max_blocks * per_block

  -- A search that ends, from RETRY on
  find_from-found :
      (fuel lblock s num s' : ℕ) (d : Dir Index) (r : Search)
      → length d.entries < u32_mod
      → length d.entries / per_block < 2 ^ 31
      → (if length d.entries == d.i_links_count then 0 else length d.entries / per_block) ≡ num
      → (if length d.entries == d.i_links_count
          then u32_mod - 1
          else if s == per_block - 1
          then u32_mod - 1
          else s)
        ≡ s'
      → search_blocks per_block num lblock s' d
        ≡ ok (record {
          found = true;
          search_lblock = r.search_lblock;
          search_entry = r.search_entry;
        })
      → find_from per_block can_allocate (suc fuel) lblock s d
        ≡ ok (some (r.search_lblock * per_block + r.search_entry), d)
  unfolding find_from
  find_from-found fuel lblock s num s' d r small few_blocks e e' h =
      let n : length d.entries % u32_mod ≡ length d.entries = omega (arith, small) in
      let t : s32_rounds (length d.entries / per_block) ≡ length d.entries / per_block =
        s32_rounds_lem (length d.entries / per_block) few_blocks in
      rw (n, t, e, e', h, find_from, ◌>>=◌) refl

  -- A directory that is full gets a block.
  find_from-full :
      (fuel lblock s : ℕ) (d : Dir Index)
      → IsSmall d
      → length d.entries ≡ d.i_links_count
      → can_allocate (length d.entries / per_block) ≡ true
      → find_from per_block can_allocate (suc fuel) lblock s d
        ≡ find_from per_block can_allocate fuel
            (length d.entries / per_block)
            (u32_mod - 1)
            (grown d)
  unfolding find_from search_blocks
  find_from-full fuel lblock s d small e a =
      let n : length d.entries % u32_mod ≡ length d.entries = omega (arith, small.counted) in
      let t : (length d.entries == d.i_links_count) ≡ true = ground arith in
      let below : ltb (length d.entries) (max_blocks * per_block) ≡ true =
        below_test (length d.entries) (max_blocks * per_block) (small.below_max) in
      rw (n, t, a, below, find_from, ◌>>=◌, search_blocks, n) refl

  grown_old : (d : Dir Index) (k : ℕ) → k < length d.entries → entry (grown d) k ≡ entry d k
  grown_old d k h = get_or-append_left d.entries (replicate per_block empty_entry) k empty_entry h

  grown_new : (d : Dir Index) (k : ℕ) → length d.entries ≤ k → entry (grown d) k ≡ empty_entry
  grown_new d k h =
      let e : k ≡ length d.entries + (k - length d.entries) = omega arith in
      ap (entry (grown d)) e
      ∙ get_or-append_right d.entries (replicate per_block empty_entry) (k - length d.entries)
          empty_entry
      ∙ get_or-replicate per_block empty_entry (k - length d.entries)

  grown-IsCompact : (d : Dir Index) → IsCompact per_block d → IsCompact per_block (grown d)
  grown-IsCompact d v =
      let size : length (grown d).entries ≡ length d.entries + per_block =
        length-append d.entries (replicate per_block empty_entry)
        ∙ ap (λ n. length d.entries + n) (length-replicate per_block empty_entry) in
      record {
        blocks = v.blocks + 1;
        whole = size ∙ ap (λ n. n + per_block) v.whole ∙ grind arith;
        some_used = v.some_used;
        bounded = omega (arith, size, v.bounded);
        used = λ k h. ap (λ e. e.d_flag) (grown_old d k (omega (arith, h, v.bounded))) ∙ v.used k h;
        free = λ k lo hi. elim (lt-cases k (length d.entries)) [
          | inl h ↦ ap dir_is_invalid (grown_old d k (h.1)) ∙ v.free k lo (h.1)
          | inr h ↦ ap dir_is_invalid (grown_new d k (h.1))
        ];
      }

  module _ (fuel : ℕ) (d : Dir Index) (v : IsCompact per_block d) (small : IsSmall d) where
    few_blocks : v.blocks + 1 < 2 ^ 31
    few_blocks =
        let b : v.blocks < max_blocks =
          lt_of_mul-lt-mul_right per_block (omega (arith, v.whole, small.below_max)) in
        omega (arith, b)

    -- The blocks below an offset within the directory
    block-lt : (l k : ℕ) → l * per_block + k < length d.entries → l < v.blocks
    block-lt l k h = lt_of_mul-lt-mul_right per_block (omega (arith, v.whole))

    module _ (room : d.i_links_count < length d.entries) where
      not_full : (length d.entries == d.i_links_count) ≡ false
      not_full = ground arith

      -- The last entry in use is not the last of its block.
      find_within :
          (lblock s : ℕ)
          → s + 1 < per_block
          → lblock * per_block + (s + 1) ≡ d.i_links_count
          → find_from per_block can_allocate (suc fuel) lblock s d ≡ ok (some d.i_links_count, d)
      find_within lblock s h at =
          let t : (s == per_block - 1) ≡ false = ground arith in
          let blocks : 0 < v.blocks =
            omega (arith, block-lt lblock (s + 1) (omega (arith, at, room))) in
          find_from-found fuel lblock s (suc (v.blocks - 1)) s d
            (record { found = true; search_lblock = lblock; search_entry = s + 1 })
            (omega (arith, small.counted)) (omega (arith, few_blocks, num_blocks d v))
            (rw not_full (num_blocks d v ∙ omega (arith, blocks))) (rw (not_full, t) refl)
            (search_blocks-here per_block d v positive few (v.blocks - 1) lblock s (s + 1)
              (next_entry per_block d v positive few s h) at room)
          ∙ ap (λ k. ok (some k, d)) at

      -- It is: the next block is searched.
      find_behind :
          (lblock : ℕ)
          → (lblock + 1) * per_block ≡ d.i_links_count
          → find_from per_block can_allocate (suc fuel) lblock (per_block - 1) d
            ≡ ok (some d.i_links_count, d)
      find_behind lblock at =
          let t : (per_block - 1 == per_block - 1) ≡ true = ground arith in
          let blocks : lblock + 1 < v.blocks = block-lt (lblock + 1) 0 (omega (arith, at, room)) in
          find_from-found fuel lblock (per_block - 1) (suc (suc (v.blocks - 2))) (u32_mod - 1) d
            (record { found = true; search_lblock = lblock + 1; search_entry = 0 })
            (omega (arith, small.counted)) (omega (arith, few_blocks, num_blocks d v))
            (rw not_full (num_blocks d v ∙ omega (arith, blocks))) (rw (not_full, t) refl)
            (search_blocks-full per_block d v positive few (v.blocks - 2) lblock at room
              (λ e. omega (arith, e, num_blocks d v, blocks)))
          ∙ ap (λ k. ok (some k, d)) (omega (arith, at))

      -- nvfuse_find_empty_dentry() of a directory that has a free entry
      find_with_room :
          d.i_links_count < u32_mod
          → find_empty_dentry per_block can_allocate (suc fuel) d ≡ ok (some d.i_links_count, d)
      unfolding find_empty_dentry
      find_with_room below =
          let last : ℕ = d.i_links_count - 1 in
          let e : (d.i_links_count + u32_mod - 1) % u32_mod ≡ last = omega (arith, v.some_used) in
          ap (λ b. find_from per_block can_allocate (suc fuel) (b / per_block) (b % per_block) d) e
          ∙ elim (eq-cases (last % per_block) (per_block - 1)) [
            | inl y ↦
                let m : (last / per_block + 1) * per_block
                    ≡ last / per_block * per_block + per_block =
                  grind arith in
                ap (λ s. find_from per_block can_allocate (suc fuel) (last / per_block) s d) (y.1)
                ∙ find_behind (last / per_block)
                    (omega (arith, m, div-add-mod' last per_block, y.1, v.some_used))
            | inr n ↦
                find_within (last / per_block) (last % per_block)
                  (omega (arith, mod-lt last positive, n.1))
                  (omega (arith, div-add-mod' last per_block, v.some_used))
          ]

    -- and of one that has none, where a block can be had
    module _ (full : length d.entries ≡ d.i_links_count) where
      length-grown : length (grown d).entries ≡ length d.entries + per_block
      length-grown =
          length-append d.entries (replicate per_block empty_entry)
          ∙ ap (λ n. length d.entries + n) (length-replicate per_block empty_entry)

      find_in_grown :
          find_from per_block can_allocate
            (suc fuel)
            (length d.entries / per_block)
            (u32_mod - 1)
            (grown d)
          ≡ ok (some d.i_links_count, grown d)
      unfolding grown-IsCompact
      find_in_grown =
          let v' = grown-IsCompact d v in
          let room : (length (grown d).entries == d.i_links_count) ≡ false =
            ground (arith, length-grown) in
          let t : (u32_mod - 1 == per_block - 1) ≡ false = ground arith in
          let at : length d.entries / per_block * per_block + 0 ≡ d.i_links_count =
            ap (λ l. l * per_block + 0) (num_blocks d v) ∙ omega (arith, v.whole, full) in
          find_from-found fuel (length d.entries / per_block) (u32_mod - 1) (suc v.blocks)
            (u32_mod - 1) (grown d)
            (record {
              found = true;
              search_lblock = length d.entries / per_block;
              search_entry = 0;
            })
            (omega (arith, small.counted, length-grown))
            (omega (arith, few_blocks, num_blocks (grown d) v'))
            (rw room (num_blocks (grown d) v' ∙ omega arith)) (rw (room, t) refl)
            (search_blocks-here per_block (grown d) v' positive few v.blocks
              (length d.entries / per_block) (u32_mod - 1) 0
              (first_entry per_block d v positive few) at (omega (arith, length-grown, full)))
          ∙ ap (λ k. ok (some k, grown d)) at

      find_when_full :
          can_allocate (length d.entries / per_block) ≡ true
          → find_empty_dentry per_block can_allocate (suc (suc fuel)) d
            ≡ ok (some d.i_links_count, grown d)
      unfolding find_empty_dentry
      find_when_full a =
          find_from-full (suc fuel) ((d.i_links_count + u32_mod - 1) % u32_mod / per_block)
            ((d.i_links_count + u32_mod - 1) % u32_mod % per_block) d small full a
          ∙ find_in_grown

  -- nvfuse_find_empty_dentry() of a directory without gaps, where a block can be had if no entry is free,
  -- and with room for a block: the number of entries with those of one block more is below 2 ^ 32, and
  -- the size is below the maximal size of a file. It returns the entry behind the last one in use, after
  -- two rounds at most. A block is added where there is no room; the entries are as before.
  pub find_empty_dentry_lem :
      (fuel : ℕ) (d : Dir Index)
      → 2 ≤ fuel
      → IsCompact per_block d
      → IsSmall d
      → (length d.entries ≡ d.i_links_count → can_allocate (length d.entries / per_block) ≡ true)
      → (d' : Dir Index) × (find_empty_dentry per_block can_allocate fuel d
          ≡ ok (some d.i_links_count, d'))
        × HasRoom per_block d d'
  find_empty_dentry_lem zero d enough v small a = absurd (omega arith)
  find_empty_dentry_lem (suc zero) d enough v small a = absurd (omega arith)
  find_empty_dentry_lem (suc (suc fuel)) d enough v small a =
      elim (eq-cases (length d.entries) d.i_links_count) [
        | inl full ↦ (
          grown d,
          find_when_full fuel d v small (full.1) (a (full.1)),
          record {
            compact = grown-IsCompact d v;
            links = refl;
            index = refl;
            room = omega (arith, length-grown fuel d v small (full.1), full.1);
            kept = grown_old d;
          },
        )
        | inr n ↦
            let room : d.i_links_count < length d.entries = omega (arith, n.1, v.bounded) in
            (
              d,
              find_with_room (suc fuel) d v small room (omega (arith, small.counted, room)),
              record { compact = v; links = refl; index = refl; room = room; kept = λ k h. refl },
            )
      ]
