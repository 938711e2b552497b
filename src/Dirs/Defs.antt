-- ===== src/Dirs/Defs.antt =====
-- The entries of a directory, and nvfuse_find_empty_dentry() in nvfuse_core.c. The blocks of a directory
-- are one array of entries, of `per_block` = DIR_ENTRY_NUM entries to a block; i_size is its length
-- times DIR_ENTRY_SIZE. `Index` is the state of the B+tree of the directory, `none` where i_bpino is 0.
use nvfuse.Prelude.{
  ℕ, zero, suc, ◌+◌, ◌-◌, ◌*◌, ◌/◌, ◌%◌, ◌^◌, Bool, true, false, Option, none, some, List, [], ◌++◌,
  length, get_or, replicate, ltb, ◌==◌, if◌then◌else◌,
}
use nvfuse.Run.{Run, ok, abort, hang, ◌>>=◌, ◌>>◌, assert}
use mathlib.Core.Bool.{◌||◌}

-- The values of d_flag
abbrev pub dir_empty : ℕ
dir_empty = 0

abbrev pub dir_used : ℕ
dir_used = 2

abbrev pub dir_deleted : ℕ
dir_deleted = 4

abbrev pub u32_mod : ℕ
u32_mod = 2 ^ 32

-- The blocks of MAX_FILE_SIZE, which is this number times CLUSTER_SIZE
abbrev pub max_blocks : ℕ
max_blocks = 11 + 2 ^ 10 + 2 ^ 20 + 2 ^ 30

-- struct nvfuse_dir_entry
pub record Entry : Type 0 where
  pub d_ino : ℕ
  pub d_flag : ℕ
  pub d_version : ℕ
  pub d_filename : List ℕ

abbrev pub empty_entry : Entry
empty_entry = record { d_ino = 0; d_flag = dir_empty; d_version = 0; d_filename = [] }

-- The inode of a directory with its blocks
pub record Dir (Index : Type 0) : Type 0 where
  pub i_links_count : ℕ
  pub i_ptr : ℕ
  pub entries : List Entry
  pub index : Option Index

-- nvfuse_dir_is_invalid()
abbrev pub dir_is_invalid : Entry → Bool
dir_is_invalid e = (e.d_flag == dir_empty) || (e.d_flag == dir_deleted)

-- search_entry, incremented and set back at the end of a block
unfoldable pub advance : (per_block search_entry : ℕ) → ℕ
advance per_block search_entry =
    let next = (search_entry + 1) % u32_mod in if next == per_block then 0 else next

-- The rounds of a loop with this number as its bound, an s32 that is negative from 2 ^ 31 on
unfoldable pub s32_rounds : ℕ → ℕ
s32_rounds n = if ltb n (2 ^ 31) then n else 0

-- Where a search stands: whether it has found an entry, search_lblock and search_entry.
pub record Search : Type 0 where
  pub found : Bool
  pub search_lblock : ℕ
  pub search_entry : ℕ

module _ {Index : Type 0} where
  -- An entry of a block that nvfuse_get_bh() finds. A block behind the end is not allocated.
  unfoldable pub entry_at : Dir Index → ℕ → Run Entry
  entry_at d k = if ltb k (length d.entries) then ok (get_or d.entries k empty_entry) else abort

  module _ (per_block : ℕ) where
    -- The loop over the entries of a block: the entry that is not in use.
    unfoldable pub search_entries : (rounds lblock search_entry : ℕ) → Dir Index → Run (Option ℕ)
    unfolding entry_at
    search_entries zero lblock search_entry d = ok none
    search_entries (suc rounds) lblock search_entry d =
        let here = advance per_block search_entry in
        entry_at d (lblock * per_block + here) >>= λ e. elim (dir_is_invalid e) [
          | true ↦ ok (some here)
          | false ↦ search_entries rounds lblock here d
        ]

    -- The loop over the blocks
    unfoldable pub search_blocks : (num_block lblock search_entry : ℕ) → Dir Index → Run Search
    unfolding search_entries
    search_blocks zero lblock search_entry d =
        ok (record { found = false; search_lblock = lblock; search_entry = search_entry })
    search_blocks (suc num_block) lblock search_entry d =
        search_entries per_block lblock search_entry d >>= λ here. elim here [
          | some e ↦ ok (record { found = true; search_lblock = lblock; search_entry = e })
          | none ↦
              search_blocks num_block
                (if lblock + 1 == length d.entries / per_block then 0 else lblock + 1) (u32_mod - 1)
                d
        ]

  module _ (per_block : ℕ) (can_allocate : ℕ → Bool) where
    -- From RETRY on: where there is no entry, a block is added and the search is made again, `fuel`
    -- times at most. dir_num is a u32, and i_size has to be below MAX_FILE_SIZE. `none` for NVFUSE_ERROR, where nvfuse_get_block() fails; nvfuse_get_new_bh() clears
    -- the block.
    unfoldable pub find_from :
        (fuel lblock search_entry : ℕ) → Dir Index → Run (Option ℕ × Dir Index)
    unfolding search_blocks s32_rounds
    find_from zero lblock search_entry d = hang
    find_from (suc fuel) lblock search_entry d =
        let dir_num = length d.entries % u32_mod in
        let full = dir_num == d.i_links_count in
        search_blocks per_block (if full then 0 else s32_rounds (dir_num / per_block)) lblock
          (if full
            then u32_mod - 1
            else if search_entry == per_block - 1
            then u32_mod - 1
            else search_entry)
          d
        >>= λ s. elim s.found [
          | true ↦ ok (some (s.search_lblock * per_block + s.search_entry), d)
          | false ↦ elim (can_allocate (length d.entries / per_block)) [
            | false ↦ ok (none, d)
            | true ↦
                assert (ltb (length d.entries) (max_blocks * per_block))
                >> find_from fuel (dir_num / per_block) s.search_entry
                    (record d { entries = d.entries ++ replicate per_block empty_entry })
          ]
        ]

    -- nvfuse_find_empty_dentry()
    unfoldable pub find_empty_dentry : (fuel : ℕ) → Dir Index → Run (Option ℕ × Dir Index)
    unfolding find_from
    find_empty_dentry fuel d =
        let before = (d.i_links_count + u32_mod - 1) % u32_mod in
        find_from fuel (before / per_block) (before % per_block) d
