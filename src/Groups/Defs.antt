-- ===== src/Groups/Defs.antt =====
-- The block groups of a file system and the counters of free inodes and blocks, in nvfuse_core.c and
-- include/nvfuse_core.h. The blocks BD_INO, IBITMAP_INO and DBITMAP_INO of the buffer cache are a
-- group's descriptor and bitmaps. Counters of 64 bits are integers.
use nvfuse.Prelude.{
  ℕ, zero, suc, ◌+◌, ◌-◌, ◌%◌, ◌/◌, ◌^◌, Bool, true, false, not, Option, List, [], length, get_or,
  set, ltb, ◌==◌, if◌then◌else◌,
}
use nvfuse.Prelude.Int.{ℤ, pos, negsuc, ◌+ℤ◌, ◌-ℤ◌, ltb_ℤ}
use nvfuse.Run.{Run, ok, fault, ◌>>=◌, ◌>>◌, assert}

-- struct nvfuse_bg_descriptor, what the functions below use of it
pub record Descriptor : Type 0 where
  pub bd_owner : ℕ
  pub bd_id : ℕ
  pub bd_bg_start : ℕ
  pub bd_max_inodes : ℕ
  pub bd_max_blocks : ℕ
  pub bd_dtable_start : ℕ
  pub bd_free_inodes : ℕ
  pub bd_free_blocks : ℕ
  pub bd_next_block : ℕ

-- The descriptor of a group and the bytes of its bitmaps.
pub record Group : Type 0 where
  pub bd : Descriptor
  pub ibitmap : List ℕ
  pub dbitmap : List ℕ

-- struct nvfuse_superblock: the counters, the kind of process, and the list of its groups, whose
-- search pointers stand on a member.
pub record Super : Type 0 where
  pub groups : List Group
  -- the descriptors as they were when the file system was mounted
  pub sb_bd : List Descriptor
  pub sb_no_of_inodes_per_bg : ℕ
  pub sb_no_of_blocks_per_bg : ℕ
  pub sb_bg_num : ℕ
  pub sb_no_of_blocks : ℤ
  pub sb_free_inodes : ℤ
  pub sb_free_blocks : ℤ
  pub sb_no_of_used_blocks : ℤ
  pub asb_root_bg_id : ℕ
  pub asb_core_id : ℕ
  pub asb_free_inodes : ℤ
  pub asb_free_blocks : ℤ
  pub asb_no_of_used_blocks : ℤ
  pub sb_bg_list : List ℕ
  pub search_ptr_for_inode : Option ℕ
  pub search_ptr_for_data : Option ℕ
  -- spdk_process_is_primary(), nvfuse_process_model_is_dataplane(), nvh_params.preallocation
  pub is_primary : Bool
  pub is_dataplane : Bool
  pub preallocation : Bool

abbrev pub zero_group : Group
zero_group = record {
  bd = record {
    bd_owner = 0;
    bd_id = 0;
    bd_bg_start = 0;
    bd_max_inodes = 0;
    bd_max_blocks = 0;
    bd_dtable_start = 0;
    bd_free_inodes = 0;
    bd_free_blocks = 0;
    bd_next_block = 0;
  };
  ibitmap = [];
  dbitmap = [];
}

abbrev pub group : Super → ℕ → Group
group sb bg_id = get_or sb.groups bg_id zero_group

abbrev pub set_group : Super → ℕ → Group → Super
set_group sb bg_id g = record sb { groups = set sb.groups bg_id g }

-- nvfuse_get_bh() of a group's blocks, and the check of its number
abbrev pub get_group : Super → ℕ → Run Group
get_group sb bg_id =
    if ltb bg_id (length sb.groups)
    then (assert ((group sb bg_id).bd.bd_id == bg_id) >> ok (group sb bg_id))
    else fault

-- x / y and x % y stop the process where y is 0.
abbrev pub divided : (x y : ℕ) → Run ℕ
divided x y = if y == 0 then fault else ok (x / y)

abbrev pub dec_u32 : (x by : ℕ) → ℕ
dec_u32 x by = (x + (2 ^ 32 - by)) % 2 ^ 32

abbrev pub inc_u32 : (x by : ℕ) → ℕ
inc_u32 x by = (x + by) % 2 ^ 32

abbrev pub not_negative : ℤ → Bool
not_negative x = not (ltb_ℤ x (pos 0))

abbrev pub within : (x limit : ℤ) → Bool
within x limit = not (ltb_ℤ limit x)

-- nvfuse_dec_free_inodes(). The assertion that an unsigned count is not below 0 always holds.
unfoldable pub dec_free_inodes : (ino : ℕ) → Super → Run Super
dec_free_inodes ino sb = do
  bg_id ← divided ino sb.sb_no_of_inodes_per_bg
  g ← get_group sb bg_id
  let bd = record g.bd { bd_free_inodes = dec_u32 g.bd.bd_free_inodes 1 }
  ok (record (set_group sb bg_id (record g { bd = bd })) {
    sb_free_inodes = sb.sb_free_inodes -ℤ pos 1;
    asb_free_inodes = if sb.is_primary then sb.asb_free_inodes else sb.asb_free_inodes -ℤ pos 1;
  })

-- The counters after nvfuse_dec_free_blocks(), before its assertions.
abbrev pub fewer_blocks : (bg_id cnt : ℕ) → Super → Super
fewer_blocks bg_id cnt sb =
    let g = group sb bg_id in
    record (set_group sb bg_id
      (record g { bd = record g.bd { bd_free_blocks = dec_u32 g.bd.bd_free_blocks cnt } })) {
        sb_free_blocks = sb.sb_free_blocks -ℤ pos cnt;
        sb_no_of_used_blocks = sb.sb_no_of_used_blocks +ℤ pos cnt;
        asb_free_blocks =
            if sb.is_primary then sb.asb_free_blocks else sb.asb_free_blocks -ℤ pos cnt;
      }

-- nvfuse_dec_free_blocks()
unfoldable pub dec_free_blocks : (blockno cnt : ℕ) → Super → Run Super
dec_free_blocks blockno cnt sb = do
  bg_id ← divided blockno sb.sb_no_of_blocks_per_bg
  g ← get_group sb bg_id
  let sb' = fewer_blocks bg_id cnt sb
  assert (not_negative sb'.sb_free_blocks)
  assert (if sb'.is_primary then true else not_negative sb'.asb_free_blocks)
  assert (within sb'.sb_no_of_used_blocks sb'.sb_no_of_blocks)
  ok sb'

-- nvfuse_get_free_blocks()
unfoldable pub get_free_blocks : (bg_id : ℕ) → Super → Run ℕ
get_free_blocks bg_id sb = get_group sb bg_id >>= λ g. ok g.bd.bd_free_blocks

-- nvfuse_check_free_inode(), nvfuse_check_free_block()
unfoldable pub check_free_inode : Super → Bool
check_free_inode sb =
    let free = if sb.is_primary then sb.sb_free_inodes else sb.asb_free_inodes in
    elim free [ pos zero ↦ false | pos (suc k) ↦ true | negsuc k ↦ true ]

unfoldable pub check_free_block : (num_blocks : ℕ) → Super → Bool
check_free_block num_blocks sb =
    within (pos num_blocks) (if sb.is_primary then sb.sb_free_blocks else sb.asb_free_blocks)
