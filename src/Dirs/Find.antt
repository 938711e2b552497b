-- ===== src/Dirs/Find.antt =====
-- The searches for a name: nvfuse_find_existing_dentry() in nvfuse_core.c, and nvfuse_lookup() with its
-- two ways in nvfuse_api.c. The index of a directory is the interface of nvfuse_get_dir_indexing() and
-- its counterparts.
use nvfuse.Prelude.{
  ℕ, zero, suc, ◌-◌, ◌/◌, ◌%◌, Bool, true, false, ◌&&◌, Option, none, some, List, length, get_or,
  ltb, ◌==◌, if◌then◌else◌, not, ◌+◌, ◌*◌,
}
use nvfuse.Run.{Run, ok, abort, hang, ◌>>=◌, ◌>>◌, assert}
use nvfuse.Bytes.{bytes_eq}
use nvfuse.Dirs.Defs.{dir_used, Entry, empty_entry, Dir, entry_at}

-- The index: `get` is nvfuse_get_dir_indexing(), `none` for a negative result; `set` and `del` are
-- nvfuse_set_dir_indexing() and nvfuse_del_dir_indexing().
pub record DirIndexing (Index : Type 0) : Type 0 where
  pub get : Index → List ℕ → Option ℕ
  pub set : Index → List ℕ → ℕ → Index
  pub del : Index → List ℕ → Index

-- The test of the searches: an entry in use with the name
abbrev pub matches : List ℕ → Entry → Bool
matches filename e = (e.d_flag == dir_used) && bytes_eq e.d_filename filename

-- What nvfuse_lookup_bptree() returns: no entry, the mark that asks for a linear search, or an entry
pub data Lookup : Type 0 where
  not_found collision : Lookup
  found : Entry → Lookup

module _ {Index : Type 0} (indexing : DirIndexing Index) where
  -- The loop of nvfuse_find_existing_dentry(), over the `rounds` entries from `k` on
  unfoldable pub search_name : (rounds k : ℕ) → List ℕ → Dir Index → Option ℕ
  search_name zero k filename d = none
  search_name (suc rounds) k filename d = elim (matches filename (get_or d.entries k empty_entry)) [
    | true ↦ some k
    | false ↦ search_name rounds (suc k) filename d
  ]

  -- nvfuse_get_dir_indexing() asserts that there is an index.
  unfoldable pub get_dir_indexing : Dir Index → List ℕ → Run (Option ℕ)
  get_dir_indexing d filename = elim d.index [
    | none ↦ abort
    | some i ↦ ok (indexing.get i filename)
  ]

  module _ (per_block : ℕ) where
    -- The search from an entry on. Where this is not the first of a block, its block is read before the
    -- loop.
    unfoldable pub search_from : (offset : ℕ) → List ℕ → Dir Index → Run (Option ℕ)
    unfolding search_name entry_at
    search_from offset filename d =
        (if offset % per_block == 0 then ok empty_entry else entry_at d offset) >>= λ _.
        ok (search_name (length d.entries - offset) offset filename d)

    -- nvfuse_find_existing_dentry(); `none` for -1. The search starts where the index says.
    unfoldable pub find_existing_dentry : List ℕ → Dir Index → Run (Option ℕ)
    unfolding search_from get_dir_indexing
    find_existing_dentry filename d = get_dir_indexing d filename >>= λ at. elim at [
      | none ↦ search_from 0 filename d
      | some offset ↦ search_from offset filename d
    ]

    -- The loop of nvfuse_lookup_linear() over the entries of a block, from `dir` to `dir_last`, in `fuel`
    -- rounds at most. `dir` stays where it is, as in the source.
    unfoldable pub scan_block : (fuel dir dir_last : ℕ) → List ℕ → Dir Index → Run (Option Entry)
    unfolding entry_at
    scan_block zero dir dir_last filename d = hang
    scan_block (suc fuel) dir dir_last filename d =
        let again = scan_block fuel dir dir_last filename d in
        if not (ltb dir dir_last)
        then ok none
        else (entry_at d dir >>= λ e. elim (matches filename e) [
          | true ↦ ok (some e)
          | false ↦ again
        ])

    -- Its loop over the blocks, `rounds` from `dentry_blk` on. The last has the entries that are left.
    unfoldable pub scan_blocks :
        (fuel rounds dentry_blk : ℕ) → List ℕ → Dir Index → Run (Option Entry)
    unfolding scan_block
    scan_blocks fuel zero dentry_blk filename d = ok none
    scan_blocks fuel (suc rounds) dentry_blk filename d =
        let dir = dentry_blk * per_block in
        let left = d.i_links_count % per_block in
        let dentry_num =
          if ltb dentry_blk (length d.entries / per_block - 1)
          then per_block
          else if left == 0
          then per_block
          else left in
        scan_block fuel dir (dir + dentry_num) filename d >>= λ r. elim r [
          | some e ↦ ok (some e)
          | none ↦ scan_blocks fuel rounds (dentry_blk + 1) filename d
        ]

    -- nvfuse_lookup_linear(). `fuel` bounds the rounds over each block.
    unfoldable pub lookup_linear : (fuel : ℕ) → List ℕ → Dir Index → Run (Option Entry)
    unfolding scan_blocks
    lookup_linear fuel filename d = scan_blocks fuel (length d.entries / per_block) 0 filename d

    -- nvfuse_lookup_bptree()
    unfoldable pub lookup_bptree : List ℕ → Dir Index → Run Lookup
    unfolding entry_at get_dir_indexing
    lookup_bptree filename d = get_dir_indexing d filename >>= λ at. elim at [
      | none ↦ ok not_found
      | some zero ↦ ok collision
      | some (suc k) ↦ entry_at d (suc k) >>= λ e. elim (matches filename e) [
        | true ↦ ok (found e)
        | false ↦ abort
      ]
    ]

    -- nvfuse_lookup() of a directory that has an index. `inodes` is the number of inodes.
    unfoldable pub lookup_indexed : (fuel inodes : ℕ) → List ℕ → Dir Index → Run (Option Entry)
    unfolding lookup_bptree lookup_linear
    lookup_indexed fuel inodes filename d =
        (lookup_bptree filename d >>= λ l. elim l [
          | not_found ↦ ok none
          | found e ↦ ok (some e)
          | collision ↦ lookup_linear fuel filename d
        ])
        >>= λ r. elim r [
          | none ↦ ok none
          | some e ↦ assert (ltb 0 e.d_ino && ltb e.d_ino inodes) >> ok (some e)
        ]

    -- nvfuse_lookup(): the entry, or `none` for -1
    unfoldable pub lookup : (fuel inodes : ℕ) → List ℕ → Dir Index → Run (Option Entry)
    unfolding lookup_indexed
    lookup fuel inodes filename d = elim d.index [
      | none ↦ ok none
      | some i ↦ lookup_indexed fuel inodes filename d
    ]
