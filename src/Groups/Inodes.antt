-- ===== src/Groups/Inodes.antt =====
-- The inodes of a group: nvfuse_scan_free_ibitmap(), nvfuse_release_ibitmap(),
-- nvfuse_find_free_inode() and the counts of nvfuse_relocate_delete_inode() in nvfuse_core.c.
use nvfuse.Prelude.{
  ℕ, zero, suc, ◌+◌, ◌*◌, ◌%◌, ◌/◌, ◌^◌, Bool, true, false, not, Option, none, some, List, length,
  ltb, ◌==◌, if◌then◌else◌,
}
use nvfuse.Run.{Run, ok, abort, fault, hang, ◌>>=◌}
use nvfuse.Scan.{scan}
use nvfuse.Bitmap.Bits.{ext2fs_test_bit, ext2fs_set_bit, ext2fs_clear_bit}
use nvfuse.Ipc.Message.{Message}
use nvfuse.Groups.Defs.{Group, Super, set_group, get_group, divided}
use nvfuse.Groups.Members.{get_next_bg_id, get_curr_bg_id, inc_free_inodes}

-- A bit of a bitmap that is clear.
abbrev pub is_clear : List ℕ → ℕ → Bool
is_clear bits i = not (ext2fs_test_bit i bits)

-- The search of a group and what it writes.
unfoldable pub scan_group : (bg_id hint_free_inode : ℕ) → Group → Super → Super × ℕ
scan_group bg_id hint_free_inode g sb =
    let n = sb.sb_no_of_inodes_per_bg in
    let found =
      if g.bd.bd_free_inodes == 0 then none else scan (is_clear g.ibitmap) n n hint_free_inode in
    elim found [
      | none ↦ (sb, 0)
      | some i ↦
          if ltb i n
          then (
            set_group sb bg_id (record g { ibitmap = ext2fs_set_bit i g.ibitmap }),
            (i + bg_id * g.bd.bd_max_inodes) % 2 ^ 32,
          )
          else (sb, 0)
    ]

-- nvfuse_scan_free_ibitmap(): the inode taken, or 0. The bitmap does not change while it is searched.
unfoldable pub scan_free_ibitmap : (bg_id hint_free_inode : ℕ) → Super → Run (Super × ℕ)
unfolding scan_group
scan_free_ibitmap bg_id hint_free_inode sb =
    get_group sb bg_id >>= λ g. ok (scan_group bg_id hint_free_inode g sb)

-- nvfuse_release_ibitmap(). An inode that is already free leaves a warning only.
unfoldable pub release_ibitmap : (bg_id ino : ℕ) → Super → Run Super
release_ibitmap bg_id ino sb = do
  g ← get_group sb bg_id
  if g.bd.bd_max_inodes == 0
      then fault
      else (if ext2fs_test_bit (ino % g.bd.bd_max_inodes) g.ibitmap
          then ok (
              set_group sb bg_id
                (record g { ibitmap = ext2fs_clear_bit (ino % g.bd.bd_max_inodes) g.ibitmap }))
          else ok sb)

-- The loop of nvfuse_find_free_inode() over the groups, which ends where it began. `rounds` that run
-- out before are a `hang`.
unfoldable pub search_groups : (rounds bg_id last_id hint_ino : ℕ) → Super → Run (Super × ℕ)
unfolding scan_free_ibitmap get_next_bg_id
search_groups zero bg_id last_id hint_ino sb = hang
search_groups (suc rounds) bg_id last_id hint_ino sb = do
  (sb1, new_ino) ← scan_free_ibitmap bg_id hint_ino sb
  elim (new_ino == 0) [
    | false ↦ ok (sb1, new_ino)
    | true ↦ do
      (sb2, next) ←
          if sb1.is_dataplane
          then get_next_bg_id true sb1
          else (if sb1.sb_bg_num == 0 then fault else ok (sb1, (bg_id + 1) % sb1.sb_bg_num))
      elim (next == last_id) [
        | true ↦ ok (sb2, 0)
        | false ↦ search_groups rounds next last_id 0 sb2
      ]
  ]

-- nvfuse_find_free_inode(). Without a free inode it ends in a failed assertion.
unfoldable pub find_free_inode : (last_ino : ℕ) → Super → Run (Super × ℕ)
unfolding search_groups get_curr_bg_id
find_free_inode last_ino sb =
    let n = sb.sb_no_of_inodes_per_bg in
    if n == 0 then fault else do
      bg_id ← if sb.is_primary then ok (last_ino / n) else get_curr_bg_id true sb
      (sb', new_ino) ← search_groups (suc (length sb.groups)) bg_id bg_id (last_ino % n) sb
      if new_ino == 0 then abort else ok (sb', new_ino)

module _ {State : Type 0} (call : Message → State → Run (State × Option Message)) where
  module _ (chan_id : ℕ) (got : Bool) where
    -- The counts and the bitmap after nvfuse_relocate_delete_inode(), without the inode's own block
    unfoldable pub relocate_delete_inode : (ino : ℕ) → Super → State → Run (Super × State)
    unfolding inc_free_inodes release_ibitmap
    relocate_delete_inode ino sb s = do
      (sb1, s1) ← inc_free_inodes call chan_id got ino sb s
      bg_id ← divided ino sb1.sb_no_of_inodes_per_bg
      sb2 ← release_ibitmap bg_id ino sb1
      ok (sb2, s1)
