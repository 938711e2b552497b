-- ===== src/Dirs/Lookup.antt =====
-- nvfuse_lookup() in nvfuse_api.c, of a name that nvfuse_createfile() has entered.
use nvfuse.Prelude.{ℕ, ◌≡◌, refl, ap, Option, none, some, List}
use nvfuse.Run.{ok}
use nvfuse.Dirs.Defs.{Dir}
use nvfuse.Dirs.Find.{DirIndexing, get_dir_indexing, lookup_indexed, lookup}
use nvfuse.Dirs.Change.{Change}

module _ {Index : Type 0} (indexing : DirIndexing Index) (per_block : ℕ) where
  pub got :
      (d : Dir Index) (filename : List ℕ) (i : Index)
      → d.index ≡ some i
      → get_dir_indexing indexing d filename ≡ ok (indexing.get i filename)
  unfolding get_dir_indexing
  got d filename i e = rw e refl

  pub lookup-index :
      (fuel inodes : ℕ) (d : Dir Index) (filename : List ℕ) (i : Index)
      → d.index ≡ some i
      → lookup indexing per_block fuel inodes filename d
        ≡ lookup_indexed indexing per_block fuel inodes filename d
  unfolding lookup
  lookup-index fuel inodes d filename i e =
      ap
        (λ (o : Option Index). elim o [
          | none ↦ ok none
          | some _ ↦ lookup_indexed indexing per_block fuel inodes filename d
        ])
        e
