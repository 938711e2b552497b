-- ===== src/Groups/Scanned.antt =====
-- What nvfuse_scan_free_ibitmap() finds.
use nvfuse.Prelude.{
  ℕ, ◌+◌, ◌*◌, ◌%◌, ◌^◌, ◌<◌, ◌≡◌, ◌≢◌, refl, ap, ◌⊎◌, inl, inr, Bool, true, false, not, arith,
  length, ◌==◌, Option-cases, lt→ltb,
}
use nvfuse.Run.{ok}
use nvfuse.Scan.{scan, scan_sound, scan-none}
use nvfuse.Bitmap.Bits.{ext2fs_test_bit, ext2fs_set_bit}
use nvfuse.Groups.Defs.{Super, group, set_group}
use nvfuse.Groups.Inodes.{is_clear, scan_group, scan_free_ibitmap}
use nvfuse.Groups.WellFormed.{equal_test}

-- An inode is found: its bit was clear, and is set now.
pub record FoundInode (sb : Super) (bg_id hint : ℕ) : Type 0 where
  pub inode : ℕ
  pub inside : inode < sb.sb_no_of_inodes_per_bg
  pub was_clear : ext2fs_test_bit inode (group sb bg_id).ibitmap ≡ false
  pub answer :
      scan_free_ibitmap bg_id hint sb
      ≡ ok (
        set_group sb bg_id
            (record (group sb bg_id) { ibitmap = ext2fs_set_bit inode (group sb bg_id).ibitmap }),
        (inode + bg_id * (group sb bg_id).bd.bd_max_inodes) % 2 ^ 32,
      )

-- No inode is free: all bits are set, and nothing changes.
pub record NoInode (sb : Super) (bg_id hint : ℕ) : Type 0 where
  pub all_taken :
      (j : ℕ) → j < sb.sb_no_of_inodes_per_bg → ext2fs_test_bit j (group sb bg_id).ibitmap ≡ true
  pub refused : scan_free_ibitmap bg_id hint sb ≡ ok (sb, 0)

set_of_not_clear : (b : Bool) → not b ≡ false → b ≡ true
set_of_not_clear true e = refl
set_of_not_clear false e = cc

clear_of_is_clear : (b : Bool) → not b ≡ true → b ≡ false
clear_of_is_clear true e = cc
clear_of_is_clear false e = refl

zero_test : (n : ℕ) → n ≢ 0 → (n == 0) ≡ false
zero_test n h = ground arith

-- nvfuse_scan_free_ibitmap() from a hint within a group that is there under its number, and whose
-- count says that inodes are free: it takes an inode that was free, or, where the bitmap has none, answers 0 and changes nothing. Its
-- loop ends.
pub scan_free_ibitmap_cases :
    (sb : Super) (bg_id hint : ℕ)
    → bg_id < length sb.groups
    → (group sb bg_id).bd.bd_id ≡ bg_id
    → (group sb bg_id).bd.bd_free_inodes ≢ 0
    → hint < sb.sb_no_of_inodes_per_bg
    → FoundInode sb bg_id hint ⊎ NoInode sb bg_id hint
unfolding scan_free_ibitmap scan_group
scan_free_ibitmap_cases sb bg_id hint p i some_free h =
    let n = sb.sb_no_of_inodes_per_bg in
    let bits = (group sb bg_id).ibitmap in
    let present = lt→ltb bg_id (length sb.groups) p in
    let numbered = equal_test (group sb bg_id).bd.bd_id bg_id i in
    let answered : (r : Super × ℕ)
        → scan_group bg_id hint (group sb bg_id) sb ≡ r
        → scan_free_ibitmap bg_id hint sb ≡ ok r =
      λ r e. rw (present, numbered) (ap ok e) in
    let counted = zero_test (group sb bg_id).bd.bd_free_inodes some_free in
    elim (Option-cases (scan (is_clear bits) n n hint)) [
      | inl none_found ↦ inr (record {
        all_taken = λ j l.
            set_of_not_clear (ext2fs_test_bit j bits)
              (scan-none (is_clear bits) n hint j h l none_found);
        refused = answered (sb, 0) (rw (counted, none_found, scan_group) refl);
      })
      | inr found ↦
          let (clear, inside) = scan_sound (is_clear bits) n n hint h (found.1) in
          inl (record {
            inode = found.0;
            inside = inside;
            was_clear = clear_of_is_clear (ext2fs_test_bit (found.0) bits) clear;
            answer =
                answered
                  (
                    set_group sb bg_id
                        (record (group sb bg_id) { ibitmap = ext2fs_set_bit (found.0) bits }),
                    (found.0 + bg_id * (group sb bg_id).bd.bd_max_inodes) % 2 ^ 32,
                  )
                  (rw (counted, found.1, lt→ltb (found.0) n inside, scan_group) refl);
          })
    ]
