-- ===== src/Dirs/Existing.antt =====
-- The entry that nvfuse_find_existing_dentry() in nvfuse_core.c finds for a name.
use nvfuse.Prelude.{
  ◌%◌, ℕ, zero, suc, ◌+◌, ◌-◌, ◌<◌, ◌≤◌, ◌≡◌, refl, sym, ap, ◌∙◌, inl, inr, true, false, some, List,
  length, arith, eq-cases, Bool-cases, Option-cases,
}
use nvfuse.Run.{ok, ◌>>=◌}
use nvfuse.Dirs.Defs.{Dir}
use nvfuse.Dirs.Find.{
  DirIndexing, matches, search_name, get_dir_indexing, search_from, find_existing_dentry,
}
use nvfuse.Dirs.Compact.{entry_at-ok, matches_self, matches-name, entry, Unique, IsCompact}

module _ {Index : Type 0} (indexing : DirIndexing Index) (filename : List ℕ) (d : Dir Index) where
  -- The search finds the first entry that matches.
  search_name_lem :
      (rounds j k : ℕ)
      → j ≤ k
      → k < j + rounds
      → matches filename (entry d k) ≡ true
      → ((i : ℕ) → j ≤ i → i < k → matches filename (entry d i) ≡ false)
      → search_name indexing rounds j filename d ≡ some k
  unfolding search_name
  search_name_lem zero j k lo hi m before = absurd (omega arith)
  search_name_lem (suc rounds) j k lo hi m before = elim (eq-cases j k) [
    | inl y ↦
        let m' : matches filename (entry d j) ≡ true =
          ap (λ i. matches filename (entry d i)) (y.1) ∙ m in
        rw (m', search_name) (ap some (y.1))
    | inr n ↦
        let m' : matches filename (entry d j) ≡ false =
          before j (omega arith) (omega (arith, n.1)) in
        rw (m', search_name)
          (search_name_lem rounds (suc j) k (omega (arith, n.1)) (omega arith) m
            (λ i a b. before i (omega arith) b))
  ]

  module _ (per_block k : ℕ) (i : Index) (v : IsCompact per_block d) (u : Unique d)
      (lt : k < d.i_links_count) (named : (entry d k).d_filename ≡ filename) (e : d.index ≡ some i)
      (at : (o : ℕ) → indexing.get i filename ≡ some o → o ≤ k) where
    -- The entries before it have other names.
    other_name : (j : ℕ) → j < k → matches filename (entry d j) ≡ false
    other_name j h = elim (Bool-cases (matches filename (entry d j))) [
      | inr f ↦ f
      | inl t ↦
          let same : j ≡ k =
            u j k (omega arith) lt (matches-name (entry d j) filename t ∙ sym named) in
          absurd (omega (arith, same, h))
    ]

    found_from : (o : ℕ) → o ≤ k → search_name indexing (length d.entries - o) o filename d ≡ some k
    found_from o h =
        search_name_lem (length d.entries - o) o k h (omega (arith, v.bounded, lt))
          (matches_self (entry d k) filename (v.used k lt) named) (λ j _ b. other_name j b)

    search_from_lem : (o : ℕ) → o ≤ k → search_from indexing per_block o filename d ≡ ok (some k)
    unfolding search_from
    search_from_lem o h = elim (eq-cases (o % per_block) 0) [
      | inl y ↦ rw (y.0, search_from) (ap ok (found_from o h))
      | inr n ↦
          rw (n.0, entry_at-ok d o (omega (arith, v.bounded, lt)), search_from, ◌>>=◌)
            (ap ok (found_from o h))
    ]

    got : get_dir_indexing indexing d filename ≡ ok (indexing.get i filename)
    unfolding get_dir_indexing
    got = rw e refl

    -- nvfuse_find_existing_dentry() finds the entry of a name, where the index has no place behind it.
    pub find_existing_dentry_lem : find_existing_dentry indexing per_block filename d ≡ ok (some k)
    unfolding find_existing_dentry
    find_existing_dentry_lem = elim (Option-cases (indexing.get i filename)) [
      | inl n ↦ rw (got, n, ◌>>=◌) (search_from_lem 0 (omega arith))
      | inr s ↦ rw (got, s.1, ◌>>=◌) (search_from_lem (s.0) (at (s.0) (s.1)))
    ]
