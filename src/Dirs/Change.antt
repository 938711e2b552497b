-- ===== src/Dirs/Change.antt =====
-- The operations that change a directory: the part of nvfuse_createfile(), nvfuse_mkdir(),
-- nvfuse_rmdir(), nvfuse_rmfile() and nvfuse_shrink_dentry() in nvfuse_api.c, and of nvfuse_link() and
-- nvfuse_rm_direntry() in nvfuse_core.c, that works on the directory and its index. A directory that an
-- entry is removed from has one at least, so that its count of entries does not wrap.
use nvfuse.Prelude.{
  ℕ, ◌+◌, ◌-◌, ◌%◌, ◌^◌, Bool, true, false, not, Option, none, some, List, length, get_or, set,
  take, ltb, leb, ◌==◌, if◌then◌else◌,
}
use nvfuse.Prelude.Int.{ℤ, pos, negsuc}
use nvfuse.Run.{Run, ok, abort, ◌>>=◌, ◌>>◌, assert}
use mathlib.Core.Bool.{◌||◌}
use nvfuse.Dirs.Defs.{
  dir_used, dir_deleted, u32_mod, Entry, empty_entry, Dir, entry_at, find_empty_dentry,
}
use nvfuse.Bytes.{bytes_eq}
use nvfuse.Dirs.Find.{DirIndexing, find_existing_dentry, lookup}

abbrev pub fname_size : ℕ
fname_size = 116

abbrev pub max_files_per_dir : ℕ
max_files_per_dir = 2 ^ 31 - 1

-- The directory after a call, and the call's result: 0, or -1 for an error.
pub record Change (Index : Type 0) : Type 0 where
  pub dir : Dir Index
  pub ret : ℤ

module _ {Index : Type 0} where
  abbrev pub failed : Dir Index → Run (Change Index)
  failed d = ok (record { dir = d; ret = negsuc 0 })

  abbrev pub put_entry : ℕ → Entry → Dir Index → Dir Index
  put_entry k e d = record d { entries = set d.entries k e }

module _ {Index : Type 0} (indexing : DirIndexing Index) where
  abbrev pub set_dir_indexing : List ℕ → ℕ → Dir Index → Run (Dir Index)
  set_dir_indexing filename k d = elim d.index [
    | none ↦ abort
    | some i ↦ ok (record d { index = some (indexing.set i filename k) })
  ]

  abbrev pub del_dir_indexing : List ℕ → Dir Index → Run (Dir Index)
  del_dir_indexing filename d = elim d.index [
    | none ↦ abort
    | some i ↦ ok (record d { index = some (indexing.del i filename) })
  ]

  module _ (per_block : ℕ) (can_allocate : ℕ → Bool) where
    -- What nvfuse_createfile() and nvfuse_mkdir() do with a directory that has its index, from
    -- nvfuse_find_empty_dentry() on. `alloc_ino` and `version` are those of the inode that
    -- nvfuse_alloc_new_inode() finds, `none` where it finds none.
    unfoldable pub enter_name :
        (fuel : ℕ) (filename : List ℕ) (alloc_ino : Option ℕ) (version : ℕ)
        → Dir Index
        → Run (Change Index)
    enter_name fuel filename alloc_ino version d =
        find_empty_dentry per_block can_allocate fuel d >>= λ r.
        let empty_dentry : ℕ = elim r.0 [ none ↦ u32_mod - 1 | some k ↦ k ] in
        let d1 = record r.1 { i_links_count = (r.1).i_links_count + 1; i_ptr = empty_dentry } in
        assert (d1.i_links_count == (d1.i_ptr + 1) % u32_mod) >> elim alloc_ino [
          | none ↦ failed d1
          | some ino ↦ do
            _ ← entry_at d1 empty_dentry
            let e : Entry = record {
              d_ino = ino;
              d_flag = dir_used;
              d_version = version;
              d_filename = filename;
            }
            d2 ← set_dir_indexing filename d1.i_ptr (put_entry empty_dentry e d1)
            ok (record { dir = d2; ret = pos 0 })
        ]

    abbrev pub bad_name : List ℕ → Bool
    bad_name filename = leb fname_size (length filename) || (length filename == 0)

    -- nvfuse_createfile()
    unfoldable pub createfile :
        (fuel : ℕ) (filename : List ℕ) (alloc_ino : Option ℕ) (version : ℕ)
        → Dir Index
        → Run (Change Index)
    unfolding enter_name
    createfile fuel filename alloc_ino version d =
        if bad_name filename
        then failed d
        else if d.i_links_count == max_files_per_dir
        then failed d
        else enter_name fuel filename alloc_ino version d

    -- nvfuse_mkdir(). It returns 0 also where the name is refused, or in use. `fuel` bounds both searches.
    unfoldable pub mkdir :
        (inodes fuel : ℕ) (dirname : List ℕ) (alloc_ino : Option ℕ) (version : ℕ)
        → Dir Index
        → Run (Change Index)
    unfolding enter_name lookup
    mkdir inodes fuel dirname alloc_ino version d =
        if bad_name dirname
        then ok (record { dir = d; ret = pos 0 })
        else (lookup indexing per_block fuel inodes dirname d >>= λ r. elim r [
          | some e ↦ ok (record { dir = d; ret = pos 0 })
          | none ↦
              if d.i_links_count == max_files_per_dir
              then failed d
              else (assert (d.i_ptr + 1 == d.i_links_count)
                  >> enter_name fuel dirname alloc_ino version d)
        ])

    -- nvfuse_link(): the entry is written at `i_ptr`.
    unfoldable pub link :
        (inodes fuel : ℕ) (new_filename : List ℕ) (ino version : ℕ) → Dir Index → Run (Change Index)
    unfolding lookup
    link inodes fuel new_filename ino version d =
        if bad_name new_filename
        then failed d
        else (lookup indexing per_block fuel inodes new_filename d >>= λ r. elim r [
          | some e ↦ failed d
          | none ↦ if d.i_links_count == max_files_per_dir then failed d else (do
            r ← find_empty_dentry per_block can_allocate fuel d
            let d1 = record r.1 { i_links_count = (r.1).i_links_count + 1 }
            _ ← entry_at d1 d1.i_ptr
            let e : Entry = record {
              d_ino = ino;
              d_flag = dir_used;
              d_version = version;
              d_filename = new_filename;
            }
            d2 ← set_dir_indexing new_filename d1.i_ptr (put_entry d1.i_ptr e d1)
            ok (record { dir = d2; ret = pos 0 }))
        ])

    -- nvfuse_shrink_dentry(): the entry at `from_entry` is moved to `to_entry`. Its result is not used.
    unfoldable pub shrink_dentry : (to_entry from_entry : ℕ) → Dir Index → Run (Dir Index)
    shrink_dentry to_entry from_entry d = if to_entry == from_entry then ok d else (do
      assert (ltb to_entry from_entry)
      dir_from ← entry_at d from_entry
      assert (not (dir_from.d_flag == dir_deleted))
      dir_to ← entry_at d to_entry
      assert (dir_to.d_flag == dir_deleted)
      let d1 =
          put_entry from_entry (record dir_from { d_flag = dir_deleted })
            (put_entry to_entry dir_from d)
      d2 ← del_dir_indexing dir_from.d_filename d1
      set_dir_indexing dir_from.d_filename to_entry d2)

    -- The end of nvfuse_rmfile() and nvfuse_rmdir(): the last entry takes the place of the one that is
    -- removed, and a block that is no longer needed is given back.
    unfoldable pub close_gap : (found_entry : ℕ) → Dir Index → Run (Dir Index)
    unfolding shrink_dentry
    close_gap found_entry d = shrink_dentry found_entry d.i_links_count d >>= λ d1.
        if d1.i_links_count % per_block == 0
        then ok (record d1 { entries = take (length d1.entries - per_block) d1.entries })
        else ok d1

    -- The part of nvfuse_rmfile() on the directory. `is_directory` is the type of the inode of an entry,
    -- `none` where there is no such inode.
    unfoldable pub rmfile :
        (is_directory : ℕ → Option Bool) (filename : List ℕ) → Dir Index → Run (Change Index)
    unfolding find_existing_dentry close_gap
    rmfile is_directory filename d = find_existing_dentry indexing per_block filename d >>= λ r.
        let found_entry : ℕ = elim r [ none ↦ u32_mod - 1 | some k ↦ k ] in
        entry_at d found_entry >>= λ e. elim (is_directory e.d_ino) [
          | none ↦ failed d
          | some true ↦ failed d
          | some false ↦ do
            d1 ← del_dir_indexing filename d
            let links = d1.i_links_count - 1
            let e1 = record (get_or d1.entries found_entry empty_entry) { d_flag = dir_deleted }
            let d2 =
                put_entry found_entry e1 (record d1 { i_links_count = links; i_ptr = links - 1 })
            d3 ← close_gap found_entry d2
            ok (record { dir = d3; ret = pos 0 })
        ]

    -- The part of nvfuse_rmdir() on the parent. `inode_of` is the inode of an entry: whether it is a
    -- directory, and its i_links_count.
    unfoldable pub rmdir :
        (root_ino : ℕ) (inode_of : ℕ → Option (Bool × ℕ)) (filename : List ℕ)
        → Dir Index
        → Run (Change Index)
    unfolding find_existing_dentry close_gap
    rmdir root_ino inode_of filename d = find_existing_dentry indexing per_block filename d >>= λ r.
        let found_entry : ℕ = elim r [ none ↦ u32_mod - 1 | some k ↦ k ] in
        entry_at d found_entry >>= λ e. elim (inode_of e.d_ino) [
          | none ↦ failed d
          | some (is_directory, links_count) ↦
              if (e.d_ino == root_ino)
                || not is_directory
                || not (bytes_eq e.d_filename filename)
                || ltb 2 links_count
              then failed d
              else (do
                let links = d.i_links_count - 1
                let e1 = record (get_or d.entries found_entry empty_entry) { d_flag = dir_deleted }
                let d1 =
                    put_entry found_entry e1 (record d { i_links_count = links; i_ptr = links - 1 })
                d2 ← del_dir_indexing filename d1
                d3 ← close_gap found_entry d2
                ok (record { dir = d3; ret = pos 0 }))
        ]

    -- nvfuse_rm_direntry(): the entry is marked, and nothing is moved to its place.
    unfoldable pub rm_direntry :
        (exists : ℕ → Bool) (name : List ℕ) → Dir Index → Run (Change Index)
    unfolding find_existing_dentry
    rm_direntry exists name d = find_existing_dentry indexing per_block name d >>= λ r.
        let found_entry : ℕ = elim r [ none ↦ u32_mod - 1 | some k ↦ k ] in
        entry_at d found_entry >>= λ e. elim (exists e.d_ino) [
          | false ↦ failed d
          | true ↦ do
            d1 ← del_dir_indexing name d
            let e1 = record (get_or d1.entries found_entry empty_entry) { d_flag = dir_deleted }
            ok (record { dir = put_entry found_entry e1 d1; ret = pos 0 })
        ]
