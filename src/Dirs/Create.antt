-- ===== src/Dirs/Create.antt =====
-- What nvfuse_createfile() in nvfuse_api.c makes of a directory: one name more.
use nvfuse.Prelude.{
  ℕ, ◌+◌, ◌/◌, ◌%◌, ◌<◌, ◌≤◌, ◌≡◌, refl, sym, ap, ◌∙◌, ◌⊎◌, ◌↔◌, inl, inr, Bool, true, false,
  Option, some, List, length, set, arith, leb, ◌==◌, eq-cases, length-set, get_or-set_self,
  get_or-set_ne,
}
use nvfuse.Prelude.Int.{pos}
use nvfuse.Run.{ok, ◌>>=◌}
use mathlib.Core.Bool.{◌||◌}
use nvfuse.Dirs.Defs.{dir_used, u32_mod, Entry, empty_entry, Dir, dir_is_invalid, find_empty_dentry}
use nvfuse.Dirs.Find.{DirIndexing}
use nvfuse.Dirs.Change.{fname_size, max_files_per_dir, Change, enter_name, createfile}
use nvfuse.Dirs.Compact.{entry, Unique, IsCompact, HasRoom, entry_at-ok}
use nvfuse.Dirs.Empty.{find_empty_dentry_lem, IsSmall}

module _ {Index : Type 0} where
  -- The directory has an entry for the name, with this inode.
  abbrev pub Named : Dir Index → List ℕ → ℕ → Type 0
  Named d name ino =
      (k : ℕ) × (k < d.i_links_count) × ((entry d k).d_filename ≡ name) × ((entry d k).d_ino ≡ ino)

  module _ (per_block : ℕ) (d d' : Dir Index) (h : HasRoom per_block d d')
      (v : IsCompact per_block d) (e : Entry) (is_used : e.d_flag ≡ dir_used) (i_ptr : ℕ)
      (index : Option Index) where
    -- The entry is added behind the last one.
    abbrev pub added : Dir Index
    added = record {
      i_links_count = d.i_links_count + 1;
      i_ptr = i_ptr;
      entries = set d'.entries d.i_links_count e;
      index = index;
    }

    pub added_new : entry added d.i_links_count ≡ e
    added_new = get_or-set_self d'.entries d.i_links_count e empty_entry h.room

    added_old : (k : ℕ) → ¬ (d.i_links_count ≡ k) → entry added k ≡ entry d' k
    added_old k n = get_or-set_ne d'.entries d.i_links_count k e empty_entry n

    added_kept : (k : ℕ) → k < d.i_links_count → entry added k ≡ entry d k
    added_kept k lt =
        added_old k (λ y. omega (arith, y, lt)) ∙ h.kept k (omega (arith, lt, v.bounded))

    pub added-IsCompact : IsCompact per_block added
    added-IsCompact = record {
      blocks = h.compact.blocks;
      whole = length-set d'.entries d.i_links_count e ∙ h.compact.whole;
      some_used = omega arith;
      bounded = omega (arith, length-set d'.entries d.i_links_count e, h.room);
      used = λ k lt. elim (eq-cases d.i_links_count k) [
        | inl y ↦
            ap (λ j. (entry added j).d_flag) (sym (y.1)) ∙ ap (λ x. x.d_flag) added_new ∙ is_used
        | inr n ↦
            ap (λ x. x.d_flag) (added_kept k (omega (arith, n.1, lt)))
            ∙ v.used k (omega (arith, n.1, lt))
      ];
      free = λ k lo hi.
          ap dir_is_invalid (added_old k (λ y. omega (arith, y, lo)))
          ∙ h.compact.free k (omega (arith, lo, h.links))
              (omega (arith, hi, length-set d'.entries d.i_links_count e));
    }

    pub added-Named :
        (name : List ℕ) (ino : ℕ)
        → Named added name ino ↔ Named d name ino ⊎ (e.d_filename ≡ name) × (e.d_ino ≡ ino)
    added-Named name ino = (
      λ (k, lt, n, i). elim (eq-cases d.i_links_count k) [
        | inl y ↦
            let same : e ≡ entry added k = sym added_new ∙ ap (entry added) (y.1) in
            inr (ap (λ x. x.d_filename) same ∙ n, ap (λ x. x.d_ino) same ∙ i)
        | inr o ↦
            let same : entry d k ≡ entry added k = sym (added_kept k (omega (arith, o.1, lt))) in
            inl (
              k,
              omega (arith, o.1, lt),
              ap (λ x. x.d_filename) same ∙ n,
              ap (λ x. x.d_ino) same ∙ i,
            )
      ],
      λ s. elim s [
        | inl (k, lt, n, i) ↦ (
          k,
          omega (arith, lt),
          ap (λ x. x.d_filename) (added_kept k lt) ∙ n,
          ap (λ x. x.d_ino) (added_kept k lt) ∙ i,
        )
        | inr (n, i) ↦ (
          d.i_links_count,
          omega arith,
          ap (λ x. x.d_filename) added_new ∙ n,
          ap (λ x. x.d_ino) added_new ∙ i,
        )
      ],
    )

    pub added-Unique : Unique d → ((ino : ℕ) → ¬ Named d e.d_filename ino) → Unique added
    added-Unique u fresh j k lt lt' same = elim (eq-cases d.i_links_count j) [
      | inl y ↦ elim (eq-cases d.i_links_count k) [
        | inl z ↦ omega (arith, y.1, z.1)
        | inr z ↦ absurd (
            fresh (entry d k).d_ino (
              k,
              omega (arith, z.1, lt'),
              ap (λ x. x.d_filename) (sym (added_kept k (omega (arith, z.1, lt'))))
                  ∙ sym same
                  ∙ ap (λ x. x.d_filename) (ap (entry added) (sym (y.1)) ∙ added_new),
              refl,
            ))
      ]
      | inr y ↦ elim (eq-cases d.i_links_count k) [
        | inl z ↦ absurd (
            fresh (entry d j).d_ino (
              j,
              omega (arith, y.1, lt),
              ap (λ x. x.d_filename) (sym (added_kept j (omega (arith, y.1, lt))))
                  ∙ same
                  ∙ ap (λ x. x.d_filename) (ap (entry added) (sym (z.1)) ∙ added_new),
              refl,
            ))
        | inr z ↦ u j k (omega (arith, y.1, lt)) (omega (arith, z.1, lt')) (
            ap (λ x. x.d_filename) (sym (added_kept j (omega (arith, y.1, lt))))
            ∙ same
            ∙ ap (λ x. x.d_filename) (added_kept k (omega (arith, z.1, lt'))))
      ]
    ]

  module _ (indexing : DirIndexing Index) (per_block : ℕ) (can_allocate : ℕ → Bool)
      (positive : 1 ≤ per_block) (few : per_block < u32_mod) where
    new_entry : List ℕ → ℕ → ℕ → Entry
    new_entry filename ino version = record {
      d_ino = ino;
      d_flag = dir_used;
      d_version = version;
      d_filename = filename;
    }

    createfile_run :
        (fuel : ℕ) (filename : List ℕ) (ino version : ℕ) (d d' : Dir Index) (i : Index)
        → 1 ≤ length filename
        → length filename < fname_size
        → d.i_links_count < max_files_per_dir
        → d.index ≡ some i
        → find_empty_dentry per_block can_allocate fuel d ≡ ok (some d.i_links_count, d')
        → HasRoom per_block d d'
        → createfile indexing per_block can_allocate fuel filename (some ino) version d
          ≡ ok (record {
            dir = record {
              i_links_count = d'.i_links_count + 1;
              i_ptr = d.i_links_count;
              entries = set d'.entries d.i_links_count (new_entry filename ino version);
              index = some (indexing.set i filename d.i_links_count);
            };
            ret = pos 0;
          })
    unfolding createfile new_entry
    createfile_run fuel filename ino version d d' i named short below e found h =
        let t1 : (leb fname_size (length filename) || (length filename == 0)) ≡ false =
          ground arith in
        let t2 : (d.i_links_count == max_files_per_dir) ≡ false = ground arith in
        let t3 : (d'.i_links_count + 1 == (d.i_links_count + 1) % u32_mod) ≡ true =
          ground (arith, h.links) in
        let t4 =
          entry_at-ok (record d' { i_links_count = d'.i_links_count + 1; i_ptr = d.i_links_count })
            d.i_links_count h.room in
        let t5 : d'.index ≡ some i = h.index ∙ e in
        rw (t1, t2, found, t3, t4, t5, createfile, enter_name, ◌>>=◌) refl

    -- nvfuse_createfile() in a directory without gaps that has an index, with a name of 1 to 115
    -- characters, where there are fewer files than the most that a directory takes, room for a block
    -- in its 32-bit count of entries and its size, an inode is found and so is a block if no entry is
    -- free, succeeds: the names of the directory are those from before
    -- and the new one with its inode, the directory has no gap, its names are distinct if they were and
    -- the new one is new, and the place of the new entry, behind the others, is entered in the index.
    pub createfile-Named :
        (fuel : ℕ) (filename : List ℕ) (ino version : ℕ) (d : Dir Index) (i : Index)
        → 2 ≤ fuel
        → IsCompact per_block d
        → IsSmall per_block positive few can_allocate d
        → 1 ≤ length filename
        → length filename < fname_size
        → d.i_links_count < max_files_per_dir
        → d.index ≡ some i
        → (length d.entries ≡ d.i_links_count → can_allocate (length d.entries / per_block) ≡ true)
        → (c : Change Index) × (createfile indexing per_block can_allocate fuel filename
              (some ino)
              version
              d
            ≡ ok c)
          × (c.ret ≡ pos 0)
          × IsCompact per_block c.dir
          × (c.dir.i_ptr ≡ d.i_links_count)
          × (c.dir.i_links_count ≡ d.i_links_count + 1)
          × (c.dir.index ≡ some (indexing.set i filename d.i_links_count))
          × (entry c.dir d.i_links_count ≡ record {
            d_ino = ino;
            d_flag = dir_used;
            d_version = version;
            d_filename = filename;
          })
          × (Unique d → ((x : ℕ) → ¬ Named d filename x) → Unique c.dir)
          × ((name : List ℕ) (x : ℕ)
              → Named c.dir name x ↔ Named d name x ⊎ (filename ≡ name) × (ino ≡ x))
    unfolding new_entry
    createfile-Named fuel filename ino version d i enough v small named short below e a =
        let (d', found, h) =
          find_empty_dentry_lem per_block positive few can_allocate fuel d enough v small a in
        let index : Option Index = some (indexing.set i filename d.i_links_count) in
        let n : Entry = new_entry filename ino version in
        (
          record { dir = added per_block d d' h v n refl d.i_links_count index; ret = pos 0 },
          createfile_run fuel filename ino version d d' i named short below e found h
              ∙ ap
                  (λ l. ok (record {
                    dir = record {
                      i_links_count = l + 1;
                      i_ptr = d.i_links_count;
                      entries = set d'.entries d.i_links_count n;
                      index = index;
                    };
                    ret = pos 0;
                  }))
                  h.links,
          refl,
          added-IsCompact per_block d d' h v n refl d.i_links_count index,
          refl,
          refl,
          refl,
          added_new per_block d d' h v n refl d.i_links_count index,
          added-Unique per_block d d' h v n refl d.i_links_count index,
          added-Named per_block d d' h v n refl d.i_links_count index,
        )
