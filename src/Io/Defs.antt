-- ===== src/Io/Defs.antt =====
-- nvfuse_readfile_core(), nvfuse_writefile_core() and their counterparts for direct I/O in nvfuse_api.c,
-- on one open file. The file's blocks are those that nvfuse_get_bh() gives: the contents of an
-- allocated block, of `cluster` bytes. A block that is not allocated fails the assertion on its
-- address in nvfuse_get_bc(). `x >> CLUSTER_SIZE_BITS` and `x & (CLUSTER_SIZE - 1)` are the quotient
-- and the remainder by `cluster`, for files of fewer than 2 ^ 31 blocks.
use nvfuse.Prelude.{
  ℕ, zero, suc, ◌+◌, ◌-◌, ◌/◌, ◌%◌, Bool, true, false, not, ◌&&◌, Option, none, some, List, [],
  ◌++◌, length, min, take, drop, ltb, leb, ◌==◌, if◌then◌else◌, ◌^◌,
}
use nvfuse.Prelude.Int.{ℤ, negsuc, to_s32}
use nvfuse.Run.{Run, ok, abort, ◌>>=◌, ◌>>◌, assert}
use nvfuse.Bytes.{write_at}

-- struct nvfuse_file_table
pub record OpenFile : Type 0 where
  pub ino : ℕ
  pub size : ℕ
  pub used : Bool
  pub rwoffset : ℕ
  pub flags : ℕ

-- The inode's size and the blocks that are allocated.
pub record File : Type 0 where
  pub i_size : ℕ
  pub blocks : ℕ → Option (List ℕ)

abbrev pub put_block : File → ℕ → List ℕ → File
put_block f lblock b = record f { blocks = λ l. if l == lblock then some b else f.blocks l }

-- nvfuse_get_bh()
abbrev pub get_bh : File → ℕ → Run (List ℕ)
get_bh f lblock = elim (f.blocks lblock) [ none ↦ abort | some b ↦ ok b ]

-- A read: the file table's entry, and the bytes copied to the buffer.
pub record Reading : Type 0 where
  pub of : OpenFile
  pub bytes : List ℕ

-- A write: the entry, the file, and the result, an s32, -1 for NVFUSE_ERROR.
pub record Writing : Type 0 where
  pub of : OpenFile
  pub file : File
  pub ret : ℤ

-- `new_block` is nvfuse_get_block() with creation: the data block it finds for a block of the file and
-- what stands in it, `none` where it fails.
module _ (cluster max_file_size : ℕ) (new_block : ℕ → Option (List ℕ)) where
  -- The loop of nvfuse_readfile_core(). A round takes a byte at least, so that `fuel` above `count`
  -- is enough.
  unfoldable pub read_blocks : (fuel count : ℕ) → OpenFile → File → Run Reading
  read_blocks zero count of f = ok (record { of = of; bytes = [] })
  read_blocks (suc fuel) count of f = elim (ltb 0 count && ltb of.rwoffset f.i_size) [
    | false ↦ ok (record { of = of; bytes = [] })
    | true ↦
        let offset = of.rwoffset % cluster in
        let remain = min (cluster - offset) count in
        get_bh f (of.rwoffset / cluster) >>= λ b.
        read_blocks fuel (count - remain) (record of { rwoffset = of.rwoffset + remain }) f >>= λ r.
        ok (record r { bytes = take remain (drop offset b) ++ r.bytes })
  ]

  -- nvfuse_readfile_core(), with the copy to the buffer. What it returns, the number of bytes as an s32,
  -- is not kept beside them.
  unfoldable pub readfile_core : (count roffset : ℕ) → OpenFile → File → Run Reading
  unfolding read_blocks
  readfile_core count roffset of f = read_blocks count count (record of { rwoffset = roffset }) f

  -- nvfuse_readfile_directio_core(): the entry, and what is returned, a u32 as an s32
  unfoldable pub readfile_directio_core : (count roffset : ℕ) → OpenFile → File → OpenFile × ℤ
  readfile_directio_core count roffset of f =
      let of1 = record of { rwoffset = roffset } in
      if not (count % cluster == 0)
      then (of1, to_s32 0)
      else if ltb f.i_size (roffset + count)
      then (of1, to_s32 0)
      else (
        record of1 {
          rwoffset = roffset + count;
          size = if ltb of.size (roffset + count) then roffset + count else of.size;
        },
        to_s32 count,
      )

  -- nvfuse_get_block() of a block with creation: an allocated block is left as it is.
  unfoldable pub allocate : ℕ → File → Option File
  allocate lblock f = elim (f.blocks lblock) [
    | some b ↦ some f
    | none ↦ elim (new_block lblock) [ none ↦ none | some b ↦ some (put_block f lblock b) ]
  ]

  -- A block at the end of the file is allocated for a write there.
  unfoldable pub extend : OpenFile → File → Option File
  unfolding allocate
  extend of f = if leb f.i_size of.rwoffset then allocate (f.i_size / cluster) f else some f

  -- The copy to a block: the size of the open file becomes that of the inode.
  unfoldable pub copy_block : (remain : ℕ) → List ℕ → OpenFile → File → Run (OpenFile × File)
  copy_block remain user_buf of f = do
    b ← get_bh f (of.rwoffset / cluster)
    let of' = record of {
      rwoffset = of.rwoffset + remain;
      size = if ltb of.size (of.rwoffset + remain) then of.rwoffset + remain else of.size;
    }
    let f' =
        record (put_block f (of.rwoffset / cluster)
          (write_at b (of.rwoffset % cluster) (take remain user_buf))) { i_size = of'.size }
    assert (ltb f'.i_size max_file_size)
    ok (of', f')

  -- The loop of nvfuse_writefile_core() over the bytes of the buffer that are left, `wcount` of which
  -- are written. `fuel` is their number at least. The u32 wcount is returned as an s32.
  unfoldable pub write_blocks :
      (fuel wcount : ℕ) (user_buf : List ℕ) → OpenFile → File → Run Writing
  unfolding extend copy_block
  write_blocks zero wcount user_buf of f =
      ok (record { of = of; file = f; ret = to_s32 (wcount % 2 ^ 32) })
  write_blocks (suc fuel) wcount user_buf of f = elim (length user_buf == 0) [
    | true ↦ ok (record { of = of; file = f; ret = to_s32 (wcount % 2 ^ 32) })
    | false ↦
        let remain = min (cluster - of.rwoffset % cluster) (length user_buf) in
        elim (extend of f) [
          | none ↦ ok (record { of = of; file = f; ret = negsuc 0 })
          | some f1 ↦ copy_block remain user_buf of f1 >>= λ r.
              write_blocks fuel (wcount + remain) (drop remain user_buf) (r.0) (r.1)
        ]
  ]

  -- nvfuse_writefile_core(), without the flush of a file that is opened with O_SYNC
  unfoldable pub writefile_core : (user_buf : List ℕ) (woffset : ℕ) → OpenFile → File → Run Writing
  unfolding write_blocks
  writefile_core user_buf woffset of f =
      write_blocks (length user_buf) 0 user_buf (record of { rwoffset = woffset }) f

  -- nvfuse_writefile_directio_core(). `allocate_all` allocates the blocks from the end of the file on.
  unfoldable pub writefile_directio_core :
      (allocate_all : (lblock count : ℕ) → File → Option File) (count woffset : ℕ)
      → OpenFile
      → File
      → Run Writing
  writefile_directio_core allocate_all count woffset of f =
      let of1 = record of { rwoffset = woffset } in
      let of2 = record of1 {
        rwoffset = woffset + count;
        size = if ltb of.size (woffset + count) then woffset + count else of.size;
      } in
      if not (count % cluster == 0)
      then ok (record { of = of1; file = f; ret = to_s32 0 })
      else if not (count == 0) && leb f.i_size woffset
      then elim (allocate_all (f.i_size / cluster) (count / cluster) f) [
        | none ↦ ok (record { of = of1; file = f; ret = negsuc 0 })
        | some f1 ↦ do
          assert (ltb f1.i_size max_file_size)
          ok (record {
            of = of2;
            file = record f1 { i_size = f1.i_size + count };
            ret = to_s32 count;
          })
      ]
      else ok (record { of = of2; file = f; ret = to_s32 count })
