-- ===== src/Dirs/Linear.antt =====
-- nvfuse_lookup() in nvfuse_api.c, of the names that the index leaves to nvfuse_lookup_linear().
use nvfuse.Dirs.Lookup.{got, lookup-index}
use nvfuse.Prelude.{
  ℕ, suc, ◌-◌, ◌*◌, ◌/◌, ◌<◌, ◌≤◌, ◌≡◌, refl, ap, ◌∙◌, inl, inr, true, false, ◌&&◌, Option, none,
  some, List, length, arith, ltb, ◌==◌, Bool-cases, block_of_offset, zero, ◌+◌, ◌%◌, if◌then◌else◌,
  ◌⊎◌,
}
use nvfuse.Run.{ok, hang, ◌>>=◌, Run, ◌>>◌, assert}
use nvfuse.Dirs.Defs.{dir_used, Entry, Dir}
use nvfuse.Dirs.Find.{
  DirIndexing, Lookup, matches, lookup_linear, lookup_bptree, lookup_indexed, lookup, scan_block,
  scan_blocks,
}
use nvfuse.Dirs.Compact.{entry, IsCompact, entry_at-ok, matches_self, matches-name}
use native.Mathlib.Nat.{lt_of_mul-lt-mul_right}

module _ {Index : Type 0} (indexing : DirIndexing Index) (per_block : ℕ) where
  bptree_collision :
      (d : Dir Index) (filename : List ℕ) (i : Index)
      → d.index ≡ some i
      → indexing.get i filename ≡ some 0
      → lookup_bptree indexing per_block filename d ≡ ok Lookup.collision
  unfolding lookup_bptree
  bptree_collision d filename i e at =
      rw (got indexing per_block d filename i e, at, lookup_bptree, ◌>>=◌) refl

  -- The loop over a block finds its first entry in the first round,
  scan_block_first :
      (fuel dir dir_last : ℕ) (d : Dir Index) (filename : List ℕ)
      → dir < dir_last
      → dir < length d.entries
      → matches filename (entry d dir) ≡ true
      → scan_block indexing per_block (suc fuel) dir dir_last filename d ≡ ok (some (entry d dir))
  unfolding scan_block
  scan_block_first fuel dir dir_last d filename some_left within m =
      let t : ltb dir dir_last ≡ true = ground arith in
      rw (t, entry_at-ok d dir within, m, scan_block, ◌>>=◌) refl

  -- or makes the same round for ever.
  scan_block-hang :
      (fuel dir dir_last : ℕ) (d : Dir Index) (filename : List ℕ)
      → dir < dir_last
      → dir < length d.entries
      → matches filename (entry d dir) ≡ false
      → scan_block indexing per_block fuel dir dir_last filename d ≡ hang
  unfolding scan_block
  scan_block-hang zero dir dir_last d filename some_left within m = refl
  scan_block-hang (suc fuel) dir dir_last d filename some_left within m =
      let t : ltb dir dir_last ≡ true = ground arith in
      let again = scan_block-hang fuel dir dir_last d filename some_left within m in
      rw (t, entry_at-ok d dir within, m, scan_block, ◌>>=◌) again

  -- The linear search of a directory with blocks is decided by its first entry.
  module _ (d : Dir Index) (filename : List ℕ) (positive : 1 ≤ per_block)
      (v : IsCompact per_block d) where
    some_blocks : 0 < v.blocks
    some_blocks =
        let z : 0 * per_block ≡ 0 = omega arith in
        lt_of_mul-lt-mul_right per_block (omega (arith, z, v.whole, v.some_used, v.bounded))

    num_rounds : length d.entries / per_block ≡ suc (v.blocks - 1)
    num_rounds =
        ap (λ x. x / per_block) (v.whole ∙ omega arith)
        ∙ block_of_offset per_block v.blocks 0 positive
        ∙ omega (arith, some_blocks)

    dentry_num : ℕ
    dentry_num =
        if ltb 0 (length d.entries / per_block - 1)
        then per_block
        else if d.i_links_count % per_block == 0
        then per_block
        else d.i_links_count % per_block

    dentry_num-positive : 0 < dentry_num
    unfolding dentry_num
    dentry_num-positive = ground arith

    linear_step :
        (fuel : ℕ) (r : Run (Option Entry))
        → scan_block indexing per_block fuel (0 * per_block) (0 * per_block + dentry_num) filename d
          ≡ r
        → lookup_linear indexing per_block fuel filename d ≡ (
            r >>= λ x. elim x [
              | some e ↦ ok (some e)
              | none ↦ scan_blocks indexing per_block fuel (v.blocks - 1) 1 filename d
            ])
    unfolding lookup_linear dentry_num scan_blocks
    linear_step fuel r e =
        ap (λ n. scan_blocks indexing per_block fuel n 0 filename d) num_rounds
        ∙ ap
            (λ (q : Run (Option Entry)). q >>= λ x. elim x [
              | some e ↦ ok (some e)
              | none ↦ scan_blocks indexing per_block fuel (v.blocks - 1) 1 filename d
            ])
            e

    start : 0 * per_block ≡ 0
    start = omega arith

    linear_first :
        (fuel : ℕ)
        → matches filename (entry d 0) ≡ true
        → lookup_linear indexing per_block (suc fuel) filename d ≡ ok (some (entry d 0))
    linear_first fuel m = linear_step (suc fuel) (ok (some (entry d 0))) (
        ap (λ k. scan_block indexing per_block (suc fuel) k (k + dentry_num) filename d) start
        ∙ scan_block_first fuel 0 (0 + dentry_num) d filename (omega (arith, dentry_num-positive))
            (omega (arith, v.some_used, v.bounded)) m)

    linear-hang :
        (fuel : ℕ)
        → matches filename (entry d 0) ≡ false
        → lookup_linear indexing per_block fuel filename d ≡ hang
    linear-hang fuel m = linear_step fuel hang (
        ap (λ k. scan_block indexing per_block fuel k (k + dentry_num) filename d) start
        ∙ scan_block-hang fuel 0 (0 + dentry_num) d filename (omega (arith, dentry_num-positive))
            (omega (arith, v.some_used, v.bounded)) m)

  lookup_collision :
      (fuel inodes : ℕ) (d : Dir Index) (filename : List ℕ) (i : Index) (r : Run (Option Entry))
      → d.index ≡ some i
      → indexing.get i filename ≡ some 0
      → lookup_linear indexing per_block fuel filename d ≡ r
      → lookup indexing per_block fuel inodes filename d ≡ (
          r >>= λ x. elim x [
            | none ↦ ok none
            | some e ↦ assert (ltb 0 e.d_ino && ltb e.d_ino inodes) >> ok (some e)
          ])
  unfolding lookup_indexed
  lookup_collision fuel inodes d filename i r e at linear =
      lookup-index indexing per_block fuel inodes d filename i e
      ∙ rw (bptree_collision d filename i e at, linear, lookup_indexed, ◌>>=◌) refl

  -- nvfuse_lookup() of a name with place 0 in the index, which is that of names with the same hash, in
  -- a directory without gaps whose first entry has an inode in range. If the first entry has the name,
  -- it is found in the first round. If not, no number of rounds is enough: the call does not return,
  -- whether or not another entry has the name.
  pub lookup_collided :
      (inodes : ℕ) (d : Dir Index) (filename : List ℕ) (i : Index)
      → 1 ≤ per_block
      → IsCompact per_block d
      → d.index ≡ some i
      → indexing.get i filename ≡ some 0
      → 0 < (entry d 0).d_ino
      → (entry d 0).d_ino < inodes
      → ((entry d 0).d_filename ≡ filename)
          × ((fuel : ℕ)
              → lookup indexing per_block (suc fuel) inodes filename d ≡ ok (some (entry d 0)))
        ⊎ ¬ ((entry d 0).d_filename ≡ filename)
          × ((fuel : ℕ) → lookup indexing per_block fuel inodes filename d ≡ hang)
  lookup_collided inodes d filename i positive v e at lo hi =
      let used : (entry d 0).d_flag ≡ dir_used = v.used 0 (v.some_used) in
      let t : (ltb 0 (entry d 0).d_ino && ltb (entry d 0).d_ino inodes) ≡ true = ground arith in
      elim (Bool-cases (matches filename (entry d 0))) [
        | inl y ↦ inl (
          matches-name (entry d 0) filename y,
          λ fuel.
              lookup_collision (suc fuel) inodes d filename i (ok (some (entry d 0))) e at
                (linear_first d filename positive v fuel y)
              ∙ rw t refl,
        )
        | inr n ↦ inr (
          λ same. (let y = matches_self (entry d 0) filename used same in cc),
          λ fuel.
              lookup_collision fuel inodes d filename i hang e at
                (linear-hang d filename positive v fuel n),
        )
      ]
