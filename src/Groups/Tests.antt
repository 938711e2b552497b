-- ===== src/Groups/Tests.antt =====
-- The theorems of the block groups on a file system of two groups of sixteen blocks.
use nvfuse.Prelude.{
  ℕ, zero, suc, ◌+◌, ◌*◌, ◌<◌, ◌≤◌, ◌≡◌, refl, inr, ◌⊎◌, true, false, Option, none, arith, [], ◌∷◌,
  ltb, ◌^◌, if◌then◌else◌,
}
use nvfuse.Prelude.Int.{pos, ◌+ℤ◌, ◌-ℤ◌}
use nvfuse.Run.{Run, ok, abort}
use nvfuse.Bitmap.Bits.{ext2fs_test_bit, has_bit}
use nvfuse.Ipc.Message.{Message}
use nvfuse.Groups.Defs.{Group, Super, group}
use nvfuse.Groups.Blocks.{free_blocks, free_dbitmap}
use nvfuse.Groups.Accounts.{count_clear}
use nvfuse.Groups.WellFormed.{IsGroup}
use nvfuse.Groups.Alloc.{Covers, Answered, alloc_dbitmap-IsGroup}
use nvfuse.Groups.Free.{TakesBack, Freed, free_dbitmap-IsGroup, free_dbitmap_twice}
use nvfuse.Groups.Segments.{free_segments, free_blocks-segments}
use nvfuse.Groups.Scanned.{FoundInode, NoInode, scan_free_ibitmap_cases}

-- Group `id`: five blocks of metadata, blocks 5 to 7 taken, eight inodes of which 0 and 1 are taken.
abbrev sample_group : ℕ → Group
sample_group id = record {
  bd = record {
    bd_owner = 0;
    bd_id = id;
    bd_bg_start = id * 16;
    bd_max_inodes = 8;
    bd_max_blocks = 16;
    bd_dtable_start = id * 16 + 5;
    bd_free_inodes = 6;
    bd_free_blocks = 8;
    bd_next_block = 0;
  };
  ibitmap = 3 ∷ [];
  dbitmap = 255 ∷ 0 ∷ [];
}

abbrev volume : Super
volume = record {
  groups = sample_group 0 ∷ sample_group 1 ∷ [];
  sb_bd = (sample_group 0).bd ∷ (sample_group 1).bd ∷ [];
  sb_no_of_inodes_per_bg = 8;
  sb_no_of_blocks_per_bg = 16;
  sb_bg_num = 2;
  sb_no_of_blocks = pos 32;
  sb_free_inodes = pos 12;
  sb_free_blocks = pos 16;
  sb_no_of_used_blocks = pos 16;
  asb_root_bg_id = 0;
  asb_core_id = 0;
  asb_free_inodes = pos 0;
  asb_free_blocks = pos 0;
  asb_no_of_used_blocks = pos 0;
  sb_bg_list = [];
  search_ptr_for_inode = none;
  search_ptr_for_data = none;
  is_primary = true;
  is_dataplane = false;
  preallocation = false;
}

volume-IsGroup : IsGroup 16 1 (group volume 1)
unfolding count_clear ext2fs_test_bit has_bit
volume-IsGroup = record {
  numbered = refl;
  starts = refl;
  in_range = omega arith;
  int_range = omega arith;
  some_blocks = omega arith;
  metadata = omega arith;
  bits = omega arith;
  next_place = inr refl;
  counted = refl;
}

volume-Covers : Covers volume 3
unfolding ◌+ℤ◌ ◌-ℤ◌
volume-Covers = record { total = refl; own = refl; used = refl }

volume-TakesBack : TakesBack volume 3
unfolding ◌+ℤ◌ ◌-ℤ◌
volume-TakesBack = record { total = refl; own = refl; used = refl }

alloc_dbitmap_example : Answered volume 1 3
alloc_dbitmap_example =
    alloc_dbitmap-IsGroup volume 1 3 (omega arith) volume-IsGroup (omega arith) (omega arith)
      volume-Covers

-- No message is sent.
abbrev call : Message → ℕ → Run (ℕ × Option Message)
call msg s = ok (s, none)

taken_bits : (j : ℕ) → 5 ≤ j → j < 8 → ext2fs_test_bit j (255 ∷ 0 ∷ []) ≡ true
unfolding ext2fs_test_bit has_bit
taken_bits (suc (suc (suc (suc (suc zero))))) lo hi = refl
taken_bits (suc (suc (suc (suc (suc (suc zero)))))) lo hi = refl
taken_bits (suc (suc (suc (suc (suc (suc (suc zero))))))) lo hi = refl
taken_bits j lo hi = absurd (omega arith)

free_dbitmap_example : Freed call 0 true volume 1 5 3 0
free_dbitmap_example =
    free_dbitmap-IsGroup call 0 true volume 1 5 3 0 (omega arith) volume-IsGroup (omega arith)
      (omega arith) (omega arith) (omega arith) taken_bits refl volume-TakesBack

free_bit : ext2fs_test_bit 8 (255 ∷ 0 ∷ []) ≡ false
unfolding ext2fs_test_bit has_bit
free_bit = refl

scan_free_ibitmap_example : FoundInode volume 1 1 ⊎ NoInode volume 1 1
scan_free_ibitmap_example =
    scan_free_ibitmap_cases volume 1 1 (omega arith) refl (omega arith) (omega arith)

-- Blocks 6 to 23 lie in both groups.
free_blocks_example : free_blocks call 0 true 6 18 volume 0 ≡ (
    if ltb (6 + 18) (2 ^ 32) then free_segments call 0 true 16 18 6 18 volume 0 else ok (volume, 0))
free_blocks_example =
    free_blocks-segments call 0 true volume 6 18 0 (omega arith) (omega arith) (omega arith)

-- Blocks 6 and 7 are taken, and 8 and 9 are free.
free_dbitmap_twice_example : free_dbitmap call 0 true 1 6 4 volume 0 ≡ abort
free_dbitmap_twice_example =
    free_dbitmap_twice call 0 true volume 1 6 4 8 0 (omega arith) refl (omega arith) (omega arith)
      (omega arith) free_bit
