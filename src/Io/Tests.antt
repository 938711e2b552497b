-- ===== src/Io/Tests.antt =====
-- The theorems on open files at concrete inputs, and runs of nvfuse_readfile_core() and
-- nvfuse_writefile_core() on a file of blocks of four bytes.
use nvfuse.Prelude.{
  ℕ, ◌≡◌, refl, sym, ◌∙◌, ◌⊎◌, inl, inr, true, Option, none, some, arith, List, [], ◌∷◌, length,
  ◌==◌, if◌then◌else◌, eq-cases,
}
use nvfuse.Prelude.Int.{negsuc, pos}
use nvfuse.Run.{Run, ok, ◌>>=◌}
use nvfuse.Io.Defs.{OpenFile, File, Writing, readfile_core, writefile_core}
use nvfuse.Io.Extend.{IsFile, Written}
use nvfuse.Io.Read.{Took, readfile_core-Took}
use nvfuse.Io.Write.{writefile_core-Wrote}
use nvfuse.Io.Table.{Opened, AllUsed, init_file_table, openfile_ino, openfile_ino_lem}

abbrev empty_block : ℕ → Option (List ℕ)
empty_block l = some (0 ∷ 0 ∷ 0 ∷ 0 ∷ [])

empty_block-found : (l : ℕ) → (b : List ℕ) × (empty_block l ≡ some b) × (length b ≡ 4)
empty_block-found l = (0 ∷ 0 ∷ 0 ∷ 0 ∷ [], refl, refl)

-- Three bytes, in a block.
abbrev small_file : File
small_file = record { i_size = 3; blocks = λ l. if l == 0 then some (1 ∷ 2 ∷ 3 ∷ 0 ∷ []) else none }

abbrev small_open : OpenFile
small_open = record { ino = 11; size = 3; used = true; rwoffset = 0; flags = 2 }

small_file-IsFile : IsFile 4 small_file
small_file-IsFile = record {
  sized = λ l b e. elim (eq-cases l 0) [
    | inl y ↦ let e' : some b ≡ some (1 ∷ 2 ∷ 3 ∷ 0 ∷ []) = sym e ∙ rw (y.0) refl in ground arith
    | inr n ↦ let e' : some b ≡ none = sym e ∙ rw (n.0) refl in cc
  ];
  mapped = λ l lt. let z : l ≡ 0 = omega arith in (1 ∷ 2 ∷ 3 ∷ 0 ∷ [], ground arith);
}

-- A write across a block, and behind the end.
writefile_core-Wrote_example :
    (w : Writing) × (writefile_core 4 100 empty_block
        (9 ∷ 8 ∷ 7 ∷ 6 ∷ 5 ∷ [])
        2
        small_open
        small_file
      ≡ ok w)
    × (w.ret ≡ pos 5)
    × (w.of.rwoffset ≡ 7)
    × (w.of.size ≡ w.file.i_size)
    × (w.file.i_size ≡ 7)
    × IsFile 4 w.file
    × Written 4 (9 ∷ 8 ∷ 7 ∷ 6 ∷ 5 ∷ []) 2 small_file w.file
writefile_core-Wrote_example =
    writefile_core-Wrote 4 100 empty_block (omega arith) empty_block-found (9 ∷ 8 ∷ 7 ∷ 6 ∷ 5 ∷ [])
      2 small_open small_file (omega arith) small_file-IsFile refl (omega arith) (omega arith)
      (omega arith)

-- Four bytes are read of a file of three, and the next three bytes of none.
readfile_core-Took_example :
    Took 4
      (omega arith)
      6
      (record small_open { rwoffset = 1 })
      small_file
      (readfile_core 4 100 empty_block 6 1 small_open small_file)
readfile_core-Took_example =
    readfile_core-Took 4 (omega arith) 100 empty_block small_file small_file-IsFile 6 1 small_open

-- The end of the file is passed up to the end of its last block.
read_past_end :
    readfile_core 4 100 empty_block 6 1 small_open small_file
    ≡ ok (record { of = record small_open { rwoffset = 4 }; bytes = 2 ∷ 3 ∷ 0 ∷ [] })
unfolding readfile_core
read_past_end = refl

-- A write to a block behind the end allocates the block at the end, and not the one written.
sparse_write : writefile_core 4 100 empty_block (9 ∷ []) 12 small_open small_file ≡ Run.abort
unfolding writefile_core
sparse_write = refl

-- A second descriptor, opened when the file had three bytes, cuts a file of six to four bytes.
abbrev grown_file : File
grown_file = record {
  i_size = 6;
  blocks = λ l.
      if l == 0
      then some (1 ∷ 2 ∷ 3 ∷ 4 ∷ [])
      else if l == 1
      then some (5 ∷ 6 ∷ 0 ∷ 0 ∷ [])
      else none;
}

stale_size :
    (writefile_core 4 100 empty_block (9 ∷ []) 3 small_open grown_file >>= λ w. ok w.file.i_size)
    ≡ ok 4
unfolding writefile_core
stale_size = refl

openfile_ino_lem_example :
    AllUsed init_file_table
      × (openfile_ino 11 3 true true init_file_table ≡ (negsuc 0, init_file_table))
    ⊎ Opened 11 3 true init_file_table (openfile_ino 11 3 true true init_file_table)
unfolding init_file_table
openfile_ino_lem_example = openfile_ino_lem 11 3 true init_file_table refl
