-- ===== src/Dirs/Unlink.antt =====
-- What nvfuse_rmfile() and nvfuse_rmdir() in nvfuse_api.c make of a directory: one name less.
use nvfuse.Prelude.{
  ℕ, suc, ◌+◌, ◌-◌, ◌*◌, ◌/◌, ◌%◌, ◌<◌, ◌≤◌, ◌≡◌, refl, sym, ap, ◌∙◌, ◌↔◌, inl, inr, Bool, true,
  false, Option, some, List, length, set, take, arith, ltb, ◌==◌, if◌then◌else◌, eq-cases, lt→ltb,
  take-length,
}
use nvfuse.Prelude.Int.{pos}
use nvfuse.Run.{ok, ◌>>=◌, if-ok}
use nvfuse.Bytes.{bytes_eq, bytes_eq_refl}
use nvfuse.Dirs.Defs.{dir_used, dir_deleted, Entry, Dir}
use nvfuse.Dirs.Find.{DirIndexing, find_existing_dentry}
use nvfuse.Dirs.Change.{Change, shrink_dentry, close_gap, rmfile, rmdir}
use nvfuse.Dirs.Compact.{entry, Unique, IsCompact, entry_at-ok}
use nvfuse.Dirs.Existing.{find_existing_dentry_lem}
use nvfuse.Dirs.Create.{Named}
use nvfuse.Dirs.Remove.{
  last, IsWithout, marked, marked_here, length-marked, marked_other, marked-IsWithout, tail, shrunk,
  shrunk-IsWithout, without-IsCompact, without-Named, without-Unique,
}
use native.Mathlib.Nat.{div-add-mod', lt_of_mul-lt-mul_right, mul-le-mul_right}

module _ {Index : Type 0} (indexing : DirIndexing Index) (per_block : ℕ)
    (can_allocate : ℕ → Bool) where
  -- nvfuse_shrink_dentry() of an entry behind the one that was removed
  shrink_dentry_run :
      (k n : ℕ) (d : Dir Index) (i : Index)
      → k < n
      → n < length d.entries
      → (entry d n).d_flag ≡ dir_used
      → (entry d k).d_flag ≡ dir_deleted
      → d.index ≡ some i
      → shrink_dentry indexing per_block can_allocate k n d
        ≡ ok (record d {
          entries =
              set (set d.entries k (entry d n)) n (record (entry d n) { d_flag = dir_deleted });
          index =
              some (indexing.set (indexing.del i (entry d n).d_filename) (entry d n).d_filename k);
        })
  unfolding shrink_dentry
  shrink_dentry_run k n d i lt within u del e =
      let t1 : (k == n) ≡ false = ground arith in
      rw
        (
          t1,
          lt→ltb k n lt,
          entry_at-ok d n within,
          u,
          entry_at-ok d k (omega arith),
          del,
          e,
          shrink_dentry,
          ◌>>=◌,
        )
        refl

  close_gap_run :
      (k : ℕ) (d d1 : Dir Index)
      → shrink_dentry indexing per_block can_allocate k d.i_links_count d ≡ ok d1
      → close_gap indexing per_block can_allocate k d
        ≡ ok (
            if d1.i_links_count % per_block == 0
            then record d1 { entries = take (length d1.entries - per_block) d1.entries }
            else d1)
  unfolding close_gap
  close_gap_run k d d1 e =
      rw (e, close_gap, ◌>>=◌)
        (if-ok (d1.i_links_count % per_block == 0)
          (record d1 { entries = take (length d1.entries - per_block) d1.entries }) d1)

  -- The directory when its last entry is moved
  abbrev before_shrink : (k : ℕ) (filename : List ℕ) (d : Dir Index) (i : Index) → Dir Index
  before_shrink k filename d i = record {
    i_links_count = last d k;
    i_ptr = last d k - 1;
    entries = set d.entries k (record (entry d k) { d_flag = dir_deleted });
    index = some (indexing.del i filename);
  }

  rmfile_run :
      (is_directory : ℕ → Option Bool) (k : ℕ) (filename : List ℕ) (d : Dir Index) (i : Index)
      → find_existing_dentry indexing per_block filename d ≡ ok (some k)
      → k < length d.entries
      → is_directory (entry d k).d_ino ≡ some false
      → d.index ≡ some i
      → rmfile indexing per_block can_allocate is_directory filename d ≡ (
          close_gap indexing per_block can_allocate k (before_shrink k filename d i) >>= λ d3.
          ok (record { dir = d3; ret = pos 0 }))
  unfolding rmfile
  rmfile_run is_directory k filename d i found within file e =
      rw (found, entry_at-ok d k within, file, e, rmfile, ◌>>=◌) refl

  rmdir_run :
      (root_ino links_count : ℕ) (inode_of : ℕ → Option (Bool × ℕ)) (k : ℕ) (filename : List ℕ)
      (d : Dir Index) (i : Index)
      → find_existing_dentry indexing per_block filename d ≡ ok (some k)
      → k < length d.entries
      → inode_of (entry d k).d_ino ≡ some (true, links_count)
      → links_count ≤ 2
      → ¬ ((entry d k).d_ino ≡ root_ino)
      → (entry d k).d_filename ≡ filename
      → d.index ≡ some i
      → rmdir indexing per_block can_allocate root_ino inode_of filename d ≡ (
          close_gap indexing per_block can_allocate k (before_shrink k filename d i) >>= λ d3.
          ok (record { dir = d3; ret = pos 0 }))
  unfolding rmdir
  rmdir_run root_ino links_count inode_of k filename d i found within directory few not_root named
        e =
      let t1 : ((entry d k).d_ino == root_ino) ≡ false = ground arith in
      let t2 : bytes_eq (entry d k).d_filename filename ≡ true =
        ap (bytes_eq (entry d k).d_filename) (sym named) ∙ bytes_eq_refl (entry d k).d_filename in
      let t3 : ltb 2 links_count ≡ false = ground arith in
      rw (found, entry_at-ok d k within, directory, t1, t2, t3, e, rmdir, ◌>>=◌) refl

  module _ (positive : 1 ≤ per_block) (k : ℕ) (filename : List ℕ) (d : Dir Index) (i : Index)
      (v : IsCompact per_block d) (here : k < d.i_links_count) where
    abbrev dir_of : List Entry → Option Index → Dir Index
    dir_of es index = record {
      i_links_count = last d k;
      i_ptr = last d k - 1;
      entries = es;
      index = index;
    }

    abbrev Shrunk : List Entry → Option Index → Type 0
    Shrunk es index =
        (shrink_dentry indexing per_block can_allocate k (last d k) (before_shrink k filename d i)
          ≡ ok (dir_of es index))
        × IsWithout d k es

    -- The last entry is moved, or is the one that is removed.
    shrunk_lem : (es : List Entry) × (index : Option Index) × Shrunk es index
    unfolding shrink_dentry
    shrunk_lem = elim (eq-cases k (last d k)) [
      | inl y ↦ (
        marked per_block positive d v k here,
        some (indexing.del i filename),
        (rw (y.0) refl, marked-IsWithout per_block positive d v k here (y.1)),
      )
      | inr n ↦
          let lt : k < last d k = omega (arith, n.1, here) in
          (
            shrunk per_block positive d v k here,
            some (
                indexing.set
                  (indexing.del (indexing.del i filename)
                    (tail per_block positive d v k here).d_filename)
                  (tail per_block positive d v k here).d_filename k),
            (
              shrink_dentry_run k (last d k) (before_shrink k filename d i)
                  (indexing.del i filename) lt
                  (omega (arith, length-marked per_block positive d v k here, v.bounded, here))
                  (ap (λ x. x.d_flag) (marked_other per_block positive d v k here (last d k) (n.1))
                    ∙ v.used (last d k) (omega arith))
                  (ap (λ x. x.d_flag) (marked_here per_block positive d v k here)) refl,
              shrunk-IsWithout per_block positive d v k here lt,
            ),
          )
    ]

    -- The blocks that the directory has then
    abbrev rest : ℕ
    rest = if last d k % per_block == 0 then length d.entries - per_block else length d.entries

    rest_bounds :
        (last d k ≤ rest) × (rest ≤ length d.entries) × ((blocks : ℕ) × (rest ≡ blocks * per_block))
    rest_bounds = elim (eq-cases (last d k % per_block) 0) [
      | inr n ↦ rw (n.0) (omega (arith, v.bounded), omega arith, (v.blocks, v.whole))
      | inl y ↦
          let q : ℕ = last d k / per_block in
          let exact : last d k ≡ q * per_block =
            omega (arith, div-add-mod' (last d k) per_block, y.1) in
          let below : q < v.blocks =
            lt_of_mul-lt-mul_right per_block (omega (arith, exact, v.whole, v.bounded, here)) in
          let m : (v.blocks - 1) * per_block + per_block ≡ v.blocks * per_block =
            let s1 : suc (v.blocks - 1) * per_block ≡ (v.blocks - 1) * per_block + per_block =
              grind arith in
            let s2 : suc (v.blocks - 1) ≡ v.blocks = omega (arith, below) in
            sym s1 ∙ ap (λ b. b * per_block) s2 in
          let le : q * per_block ≤ (v.blocks - 1) * per_block =
            mul-le-mul_right per_block (omega (arith, below)) in
          rw (y.0) (
            omega (arith, m, v.whole, exact, le),
            omega arith,
            (v.blocks - 1, omega (arith, m, v.whole)),
          )
    ]

    -- The last block is given back where it is not needed.
    given_back :
        (es : List Entry) (index : Option Index)
        → length es ≡ length d.entries
        → (if last d k % per_block == 0
            then dir_of (take (length es - per_block) es) index
            else dir_of es index)
          ≡ dir_of (take rest es) index
    given_back es index size = elim (eq-cases (last d k % per_block) 0) [
      | inl y ↦ rw (y.0) (ap (λ n. dir_of (take (n - per_block) es) index) size)
      | inr n ↦
          rw (n.0) (ap (λ x. dir_of x index) (sym (take-length es) ∙ ap (λ l. take l es) size))
    ]

    -- A directory without gaps and with distinct names, and without the entry
    abbrev pub Without : Dir Index → Type 0
    Without d' =
        IsCompact per_block d'
        × Unique d'
        × (d'.i_ptr + 1 ≡ d'.i_links_count)
        × ((name : List ℕ) (ino : ℕ)
            → Named d' name ino ↔ Named d name ino × ¬ ((entry d k).d_filename ≡ name))

    module _ (two : 2 ≤ d.i_links_count) (u : Unique d) where
      removed :
          (d' : Dir Index) × (close_gap indexing per_block can_allocate k
              (before_shrink k filename d i)
            ≡ ok d')
          × Without d'
      removed =
          let (es, index, (runs, w)) = shrunk_lem in
          let (lo, hi, (blocks, whole)) = rest_bounds in
          (
            dir_of (take rest es) index,
            close_gap_run k (before_shrink k filename d i) (dir_of es index) runs
                ∙ ap ok (given_back es index w.size),
            (
              without-IsCompact per_block positive d v k here two es w (last d k - 1) index rest
                  blocks lo hi whole,
              without-Unique per_block positive d v k here two es w (last d k - 1) index rest lo u,
              omega arith,
              without-Named per_block positive d v k here two es w (last d k - 1) index rest lo u,
            ),
          )

      module _ (named : (entry d k).d_filename ≡ filename) (e : d.index ≡ some i)
          (at : (o : ℕ) → indexing.get i filename ≡ some o → o ≤ k) where
        found : find_existing_dentry indexing per_block filename d ≡ ok (some k)
        found = find_existing_dentry_lem indexing filename d per_block k i v u here named e at

        -- nvfuse_rmfile() of a file in a directory of two entries at least without gaps and with distinct names, whose index has
        -- no place behind the entry of the name, succeeds: the names of the directory are those from
        -- before without the one of the file, and it has no gap and distinct names.
        pub rmfile-Without :
            (is_directory : ℕ → Option Bool)
            → is_directory (entry d k).d_ino ≡ some false
            → (c : Change Index) × (rmfile indexing per_block can_allocate is_directory filename d
                ≡ ok c)
              × (c.ret ≡ pos 0)
              × Without c.dir
        rmfile-Without is_directory file =
            let (d', runs, w) = removed in
            (
              record { dir = d'; ret = pos 0 },
              rmfile_run is_directory k filename d i found (omega (arith, here, v.bounded)) file e
                  ∙ ap (λ m. m >>= λ d3. ok (record { dir = d3; ret = pos 0 })) runs,
              refl,
              w,
            )

        -- nvfuse_rmdir() of a directory with at most two links that is not the root, in a directory of two
        -- entries at least without gaps and with distinct names, whose index has no place behind the entry of the name,
        -- succeeds: the names of the directory are those from before without the one that is removed,
        -- and it has no gap and distinct names.
        pub rmdir-Without :
            (root_ino links_count : ℕ) (inode_of : ℕ → Option (Bool × ℕ))
            → inode_of (entry d k).d_ino ≡ some (true, links_count)
            → links_count ≤ 2
            → ¬ ((entry d k).d_ino ≡ root_ino)
            → (c : Change Index) × (rmdir indexing per_block can_allocate root_ino inode_of filename
                  d
                ≡ ok c)
              × (c.ret ≡ pos 0)
              × Without c.dir
        rmdir-Without root_ino links_count inode_of directory few not_root =
            let (d', runs, w) = removed in
            (
              record { dir = d'; ret = pos 0 },
              rmdir_run root_ino links_count inode_of k filename d i found
                    (omega (arith, here, v.bounded)) directory few not_root named e
                  ∙ ap (λ m. m >>= λ d3. ok (record { dir = d3; ret = pos 0 })) runs,
              refl,
              w,
            )
