-- ===== src/Groups/Members.antt =====
-- The list of the block groups of a process, and what happens when a group has become free: the
-- functions of nvfuse_core.c on sb_bg_list. A search pointer names the member that it stands on;
-- going on from the last member, it skips the list's head.
use nvfuse.Prelude.{
  ℕ, ◌%◌, Bool, true, false, ◌&&◌, not, Option, none, some, List, [], ◌∷◌, ◌++◌, length, get_or,
  ltb, leb, ◌==◌, if◌then◌else◌,
}
use nvfuse.Prelude.Int.{ℤ, pos, ◌+ℤ◌, ◌-ℤ◌}
use nvfuse.Run.{Run, ok, abort, fault, hang, ◌>>=◌, ◌>>◌, assert}
use nvfuse.Ipc.Message.{Message}
use nvfuse.Ipc.Client.{dealloc_container}
use nvfuse.Groups.Defs.{
  Descriptor, zero_group, Super, group, set_group, get_group, divided, dec_u32, inc_u32,
  not_negative, within,
}

unfoldable pub is_member : ℕ → List ℕ → Bool
is_member bg_id [] = false
is_member bg_id (m ∷ ms) = if m == bg_id then true else is_member bg_id ms

-- The member behind `bg_id`, where it is not the last.
unfoldable pub behind : ℕ → List ℕ → Option ℕ
behind bg_id [] = none
behind bg_id (m ∷ []) = none
behind bg_id (m ∷ n ∷ ms) = if m == bg_id then some n else behind bg_id (n ∷ ms)

unfoldable pub next_member : ℕ → List ℕ → ℕ
unfolding behind
next_member bg_id ms = elim (behind bg_id ms) [ some n ↦ n | none ↦ get_or ms 0 0 ]

-- list_del()
unfoldable pub delete : ℕ → List ℕ → List ℕ
delete bg_id [] = []
delete bg_id (m ∷ ms) = if m == bg_id then ms else m ∷ delete bg_id ms

abbrev pub search_ptr : (is_inode : Bool) → Super → Option ℕ
search_ptr is_inode sb = if is_inode then sb.search_ptr_for_inode else sb.search_ptr_for_data

abbrev pub set_search_ptr : (is_inode : Bool) → ℕ → Super → Super
set_search_ptr true bg_id sb = record sb { search_ptr_for_inode = some bg_id }
set_search_ptr false bg_id sb = record sb { search_ptr_for_data = some bg_id }

-- nvfuse_get_next_bg_id(). A pointer that is NULL is a fault.
unfoldable pub get_next_bg_id : (is_inode : Bool) → Super → Run (Super × ℕ)
unfolding next_member
get_next_bg_id is_inode sb = if sb.is_primary then ok (sb, 0) else elim (search_ptr is_inode sb) [
  | none ↦ fault
  | some at ↦
      let next = next_member at sb.sb_bg_list in
      assert (not (next == 0)) >> ok (set_search_ptr is_inode next sb, next)
]

-- nvfuse_move_curr_bg_id(). The loop round the list does not end for a group that is no member.
unfoldable pub move_curr_bg_id : (bg_id : ℕ) (is_inode : Bool) → Super → Run Super
unfolding is_member
move_curr_bg_id bg_id is_inode sb = if sb.is_primary then abort else elim (search_ptr is_inode sb) [
  | none ↦ abort
  | some at ↦
      assert (not (bg_id == 0))
      >> (if is_member bg_id sb.sb_bg_list then ok (set_search_ptr is_inode bg_id sb) else hang)
]

-- nvfuse_get_curr_bg_id()
unfoldable pub get_curr_bg_id : (is_inode : Bool) → Super → Run ℕ
get_curr_bg_id is_inode sb =
    if sb.is_primary
    then ok 0
    else elim (search_ptr is_inode sb) [ none ↦ abort | some at ↦ assert (not (at == 0)) >> ok at ]

-- nvfuse_get_bd() for a group that is no root container, and the cached descriptor for one that is
abbrev pub descriptor_of : (bg_id : ℕ) (is_root_container : Bool) → Super → Run Descriptor
descriptor_of bg_id true sb = if ltb bg_id (length sb.groups) then ok (group sb bg_id).bd else fault
descriptor_of bg_id false sb =
    let bd = get_or sb.sb_bd bg_id zero_group.bd in
    if ltb bg_id (length sb.sb_bd) then (assert (bg_id == bd.bd_id) >> ok bd) else fault

-- nvfuse_update_sb_with_bd_info(): the process's own counts with the group's added or taken off
unfoldable pub update_sb_with_bd_info :
    (bg_id : ℕ) (is_root_container increament : Bool) → Super → Run Super
update_sb_with_bd_info bg_id is_root_container increament sb = do
  bd ← descriptor_of bg_id is_root_container sb
  let blocks : ℤ = pos bd.bd_free_blocks
  let inodes : ℤ = pos bd.bd_free_inodes
  let used : ℤ =
      if is_root_container then pos (dec_u32 sb.sb_no_of_blocks_per_bg bd.bd_free_blocks) else pos 0
  ok (
      if increament
      then record sb {
        asb_free_blocks = sb.asb_free_blocks +ℤ blocks;
        asb_free_inodes = sb.asb_free_inodes +ℤ inodes;
        asb_no_of_used_blocks = sb.asb_no_of_used_blocks +ℤ used;
      }
      else record sb {
        asb_free_blocks = sb.asb_free_blocks -ℤ blocks;
        asb_free_inodes = sb.asb_free_inodes -ℤ inodes;
        asb_no_of_used_blocks = sb.asb_no_of_used_blocks -ℤ used;
      })

-- nvfuse_update_owner_in_bd_info()
unfoldable pub update_owner_in_bd_info : (bg_id : ℕ) → Super → Run Super
update_owner_in_bd_info bg_id sb =
    if ltb bg_id (length sb.groups)
    then (let g = group sb bg_id in
        ok (set_group sb bg_id (record g { bd = record g.bd { bd_owner = sb.asb_core_id } })))
    else fault

-- nvfuse_add_bg(), with a node from the pool
unfoldable pub add_bg : (bg_id : ℕ) → Super → Run Super
unfolding update_sb_with_bd_info update_owner_in_bd_info
add_bg bg_id sb =
    let members = sb.sb_bg_list ++ (bg_id ∷ []) in
    let first = length members == 1 in
    let sb1 : Super = record sb {
      sb_bg_list = members;
      search_ptr_for_inode = if first then some bg_id else sb.search_ptr_for_inode;
      search_ptr_for_data = if first then some bg_id else sb.search_ptr_for_data;
    } in
    if sb.is_dataplane
    then ((if sb.is_primary then ok sb1 else update_sb_with_bd_info bg_id first true sb1)
        >>= update_owner_in_bd_info bg_id)
    else ok sb1

-- A search pointer on a member that is taken out goes on to the next.
abbrev pub moved_on : (bg_id : ℕ) → List ℕ → Option ℕ → Option ℕ
moved_on bg_id ms none = none
moved_on bg_id ms (some at) = some (if at == bg_id then next_member bg_id ms else at)

-- The counters after nvfuse_inc_free_blocks(), before its assertions.
abbrev pub more_blocks : (bg_id cnt : ℕ) → Super → Super
more_blocks bg_id cnt sb =
    let g = group sb bg_id in
    record (set_group sb bg_id
      (record g { bd = record g.bd { bd_free_blocks = inc_u32 g.bd.bd_free_blocks cnt } })) {
        sb_free_blocks = sb.sb_free_blocks +ℤ pos cnt;
        sb_no_of_used_blocks = sb.sb_no_of_used_blocks -ℤ pos cnt;
        asb_free_blocks =
            if sb.is_primary then sb.asb_free_blocks else sb.asb_free_blocks +ℤ pos cnt;
      }

module _ {State : Type 0} (call : Message → State → Run (State × Option Message)) where
  module _ (chan_id : ℕ) (got : Bool) where
    -- nvfuse_remove_bg(). After a loop that does not find the group, `node` is the list's head and
    -- its bg_id is not a member of it.
    unfoldable pub remove_bg : (bg_id : ℕ) → Super → State → Run (Super × State)
    unfolding is_member delete update_sb_with_bd_info
    remove_bg bg_id sb s =
        if bg_id == sb.asb_root_bg_id
        then ok (sb, s)
        else if is_member bg_id sb.sb_bg_list
        then (let sb1 : Super = record sb {
          sb_bg_list = delete bg_id sb.sb_bg_list;
          search_ptr_for_inode = moved_on bg_id sb.sb_bg_list sb.search_ptr_for_inode;
          search_ptr_for_data = moved_on bg_id sb.sb_bg_list sb.search_ptr_for_data;
        } in
            do
              sb2 ← if sb.is_primary then ok sb1 else update_sb_with_bd_info bg_id false false sb1
              (s', ret) ← dealloc_container call chan_id got bg_id s
              ok (sb2, s'))
        else fault

    -- A group that has all of its blocks and inodes free goes back to the control plane.
    unfoldable pub give_back : (bg_id : ℕ) → Super → State → Run (Super × State)
    unfolding remove_bg
    give_back bg_id sb s =
        let bd = (group sb bg_id).bd in
        if not sb.preallocation && sb.is_dataplane
        then (if sb.sb_no_of_blocks_per_bg == 0
            then fault
            else if (inc_u32 bd.bd_free_blocks (bd.bd_dtable_start % sb.sb_no_of_blocks_per_bg)
                  == bd.bd_max_blocks)
                && (bd.bd_free_inodes == bd.bd_max_inodes)
            then remove_bg bg_id sb s
            else ok (sb, s))
        else ok (sb, s)

    -- nvfuse_inc_free_inodes()
    unfoldable pub inc_free_inodes : (ino : ℕ) → Super → State → Run (Super × State)
    unfolding give_back
    inc_free_inodes ino sb s = do
      bg_id ← divided ino sb.sb_no_of_inodes_per_bg
      g ← get_group sb bg_id
      let bd = record g.bd { bd_free_inodes = inc_u32 g.bd.bd_free_inodes 1 }
      assert (leb bd.bd_free_inodes bd.bd_max_inodes)
      give_back bg_id
          (record (set_group sb bg_id (record g { bd = bd })) {
            sb_free_inodes = sb.sb_free_inodes +ℤ pos 1;
            asb_free_inodes =
                if sb.is_primary then sb.asb_free_inodes else sb.asb_free_inodes +ℤ pos 1;
          })
          s

    -- nvfuse_inc_free_blocks()
    unfoldable pub inc_free_blocks : (blockno cnt : ℕ) → Super → State → Run (Super × State)
    unfolding give_back
    inc_free_blocks blockno cnt sb s = do
      bg_id ← divided blockno sb.sb_no_of_blocks_per_bg
      g ← get_group sb bg_id
      let sb' = more_blocks bg_id cnt sb
      assert (leb (inc_u32 g.bd.bd_free_blocks cnt) g.bd.bd_max_blocks)
      assert (within sb'.sb_free_blocks sb'.sb_no_of_blocks)
      assert (if sb'.is_primary then true else within sb'.asb_free_blocks sb'.sb_no_of_blocks)
      assert (not_negative sb'.sb_no_of_used_blocks)
      give_back bg_id sb' s
