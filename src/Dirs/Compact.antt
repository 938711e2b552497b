-- ===== src/Dirs/Compact.antt =====
-- The shape of a directory that the operations rely on: the entries in use come first, without a gap.
use nvfuse.Prelude.{
  ℕ, zero, suc, ◌+◌, ◌-◌, ◌*◌, ◌/◌, ◌<◌, ◌≤◌, ◌≡◌, refl, ap, ◌∙◌, true, false, none, some, List,
  length, get_or, arith, ◌==◌, if◌then◌else◌, lt→ltb,
}
use nvfuse.Run.{ok, ◌>>=◌}
use nvfuse.Bytes.{bytes_eq_refl, eq_of_bytes_eq}
use nvfuse.Dirs.Find.{matches}
use nvfuse.Dirs.Defs.{
  dir_used, u32_mod, Entry, empty_entry, Dir, dir_is_invalid, advance, entry_at, search_entries,
  search_blocks,
}

pub used-valid : (e : Entry) → e.d_flag ≡ dir_used → dir_is_invalid e ≡ false
used-valid e h = rw h refl

pub matches_self :
    (e : Entry) (name : List ℕ) → e.d_flag ≡ dir_used → e.d_filename ≡ name → matches name e ≡ true
matches_self e name u n = rw (u, n, bytes_eq_refl name) refl

pub matches-name : (e : Entry) (name : List ℕ) → matches name e ≡ true → e.d_filename ≡ name
matches-name e name m = eq_of_bytes_eq e.d_filename name (ground arith)

module _ {Index : Type 0} where
  abbrev pub entry : Dir Index → ℕ → Entry
  entry d k = get_or d.entries k empty_entry

  -- No two entries in use have the same name.
  abbrev pub Unique : Dir Index → Type 0
  Unique d =
      (j k : ℕ)
      → j < d.i_links_count
      → k < d.i_links_count
      → (entry d j).d_filename ≡ (entry d k).d_filename
      → j ≡ k

  -- `i_links_count` entries are in use, and they are the first ones.
  pub record IsCompact (per_block : ℕ) (d : Dir Index) : Type 0 where
    pub blocks : ℕ
    pub whole : length d.entries ≡ blocks * per_block
    pub some_used : 1 ≤ d.i_links_count
    pub bounded : d.i_links_count ≤ length d.entries
    pub used : (k : ℕ) → k < d.i_links_count → (entry d k).d_flag ≡ dir_used
    pub free :
        (k : ℕ) → d.i_links_count ≤ k → k < length d.entries → dir_is_invalid (entry d k) ≡ true

  -- The directory `d'` is `d` with room for an entry.
  pub record HasRoom (per_block : ℕ) (d d' : Dir Index) : Type 0 where
    pub compact : IsCompact per_block d'
    pub links : d'.i_links_count ≡ d.i_links_count
    pub index : d'.index ≡ d.index
    pub room : d.i_links_count < length d'.entries
    pub kept : (k : ℕ) → k < length d.entries → entry d' k ≡ entry d k

  pub entry_at-ok : (d : Dir Index) (k : ℕ) → k < length d.entries → entry_at d k ≡ ok (entry d k)
  unfolding entry_at
  entry_at-ok d k h = rw (lt→ltb k (length d.entries) h) refl

  module _ (per_block : ℕ) (d : Dir Index) where
    -- The next entry is not in use.
    search_entries-here :
        (rounds lblock s here : ℕ)
        → advance per_block s ≡ here
        → lblock * per_block + here < length d.entries
        → dir_is_invalid (entry d (lblock * per_block + here)) ≡ true
        → search_entries per_block (suc rounds) lblock s d ≡ ok (some here)
    unfolding search_entries
    search_entries-here rounds lblock s here e h i =
        rw (e, entry_at-ok d (lblock * per_block + here) h, i, search_entries, ◌>>=◌)
          (ap (λ h. ok (some h)) e)

    -- The next entry is in use.
    search_entries-on :
        (rounds lblock s here : ℕ)
        → advance per_block s ≡ here
        → lblock * per_block + here < length d.entries
        → dir_is_invalid (entry d (lblock * per_block + here)) ≡ false
        → search_entries per_block (suc rounds) lblock s d
          ≡ search_entries per_block rounds lblock here d
    unfolding search_entries
    search_entries-on rounds lblock s here e h i =
        rw (e, entry_at-ok d (lblock * per_block + here) h, i, search_entries, ◌>>=◌)
          (ap (λ h. search_entries per_block rounds lblock h d) e)

    module _ (v : IsCompact per_block d) (positive : 1 ≤ per_block)
        (few : per_block < u32_mod) where
      pub next_entry : (s : ℕ) → s + 1 < per_block → advance per_block s ≡ s + 1
      unfolding advance
      next_entry s h = ground arith

      pub first_entry : advance per_block (u32_mod - 1) ≡ 0
      unfolding advance
      first_entry = ground arith

      -- A block whose entries are in use
      search_entries-full :
          (rounds lblock s : ℕ)
          → s + 1 + rounds ≡ per_block
          → (lblock + 1) * per_block ≤ d.i_links_count
          → search_entries per_block rounds lblock s d ≡ ok none
      unfolding search_entries
      search_entries-full zero lblock s e h = refl
      search_entries-full (suc rounds) lblock s e h =
          let within : lblock * per_block + (s + 1) < d.i_links_count =
            let m : (lblock + 1) * per_block ≡ lblock * per_block + per_block = grind arith in
            omega (arith, m) in
          search_entries-on rounds lblock s (s + 1) (next_entry s (omega arith))
            (omega (arith, within, v.bounded))
            (used-valid (entry d (lblock * per_block + (s + 1)))
              (v.used (lblock * per_block + (s + 1)) within))
          ∙ search_entries-full rounds lblock (s + 1) (omega arith) h

      last_block_full :
          (lblock : ℕ)
          → (lblock + 1) * per_block ≤ d.i_links_count
          → search_entries per_block per_block lblock (u32_mod - 1) d ≡ ok none
      last_block_full lblock h =
          let m : (lblock + 1) * per_block ≡ lblock * per_block + per_block = grind arith in
          let within : lblock * per_block + 0 < d.i_links_count = omega (arith, m) in
          let e : per_block ≡ suc (per_block - 1) = omega arith in
          ap (λ r. search_entries per_block r lblock (u32_mod - 1) d) e
          ∙ search_entries-on (per_block - 1) lblock (u32_mod - 1) 0 first_entry
              (omega (arith, within, v.bounded))
              (used-valid (entry d (lblock * per_block + 0))
                (v.used (lblock * per_block + 0) within))
          ∙ search_entries-full (per_block - 1) lblock 0 (omega arith) h

      -- The search ends at the first entry that is not in use.
      pub search_blocks-here :
          (num_block lblock s here : ℕ)
          → advance per_block s ≡ here
          → lblock * per_block + here ≡ d.i_links_count
          → d.i_links_count < length d.entries
          → search_blocks per_block (suc num_block) lblock s d
            ≡ ok (record { found = true; search_lblock = lblock; search_entry = here })
      unfolding search_blocks
      search_blocks-here num_block lblock s here e at h =
          let p : per_block ≡ suc (per_block - 1) = omega arith in
          let free : dir_is_invalid (entry d (lblock * per_block + here)) ≡ true =
            v.free (lblock * per_block + here) (omega (arith, at)) (omega (arith, at)) in
          let found : search_entries per_block per_block lblock s d ≡ ok (some here) =
            ap (λ r. search_entries per_block r lblock s d) p
            ∙ search_entries-here (per_block - 1) lblock s here e (omega (arith, at)) free in
          rw (found, search_blocks, ◌>>=◌) refl

      search_blocks-on :
          (num_block lblock s : ℕ)
          → search_entries per_block per_block lblock s d ≡ ok none
          → search_blocks per_block (suc num_block) lblock s d
            ≡ search_blocks per_block num_block
                (if lblock + 1 == length d.entries / per_block then 0 else lblock + 1)
                (u32_mod - 1)
                d
      unfolding search_blocks
      search_blocks-on num_block lblock s e = rw (e, search_blocks, ◌>>=◌) refl

      -- A block that is full is passed over.
      pub search_blocks-full :
          (num_block lblock : ℕ)
          → (lblock + 1) * per_block ≡ d.i_links_count
          → d.i_links_count < length d.entries
          → ¬ (lblock + 1 ≡ length d.entries / per_block)
          → search_blocks per_block (suc (suc num_block)) lblock (u32_mod - 1) d
            ≡ ok (record { found = true; search_lblock = lblock + 1; search_entry = 0 })
      search_blocks-full num_block lblock at h n =
          let t : (lblock + 1 == length d.entries / per_block) ≡ false = ground arith in
          search_blocks-on (suc num_block) lblock (u32_mod - 1)
            (last_block_full lblock (omega (arith, at)))
          ∙ ap
              (λ b.
                search_blocks per_block (suc num_block) (if b then 0 else lblock + 1) (u32_mod - 1)
                  d)
              t
          ∙ search_blocks-here num_block (lblock + 1) (u32_mod - 1) 0 first_entry
              (omega (arith, at)) h
