-- ===== src/Groups/Free.antt =====
-- nvfuse_free_dbitmap(), in a process that keeps its groups: one that is no data plane, or that has
-- its containers from the start.
use nvfuse.Prelude.{
  ℕ, ◌+◌, ◌*◌, ◌<◌, ◌≤◌, ◌≡◌, refl, sym, ap, subst, ◌∙◌, inl, Bool, true, false, not, ◌&&◌, arith,
  Option, List, length, leb, ◌==◌, if◌then◌else◌, length-set, get_or-set_self, lt→ltb,
}
use nvfuse.Prelude.Int.{pos, ◌-ℤ◌, ◌+ℤ◌}
use nvfuse.Run.{Run, ok, abort}
use nvfuse.Bitmap.Bits.{ext2fs_test_bit}
use nvfuse.Ipc.Message.{Message}
use nvfuse.Groups.Defs.{Group, Super, group, zero_group, set_group, inc_u32, not_negative, within}
use nvfuse.Groups.Members.{more_blocks, inc_free_blocks, give_back}
use nvfuse.Groups.Blocks.{clear_blocks, free_dbitmap}
use nvfuse.Groups.Accounts.{count_clear, count_clear-le}
use nvfuse.Groups.WellFormed.{
  data_start, IsGroup, with_free, equal_test, not_zero, same_group, block_number,
}
use nvfuse.Groups.Cleared.{Cleared, clear_blocks-Cleared, clear_blocks-abort}
use native.Mathlib.Nat.{mod-eq_of_lt}

-- The totals of the file system, and of the process where it is not the primary, take `cnt` blocks
-- back.
pub record TakesBack (sb : Super) (cnt : ℕ) : Type 0 where
  pub total : within (sb.sb_free_blocks +ℤ pos cnt) sb.sb_no_of_blocks ≡ true
  pub own :
      (if sb.is_primary
        then true
        else within
            (if sb.is_primary then sb.asb_free_blocks else sb.asb_free_blocks +ℤ pos cnt)
            sb.sb_no_of_blocks)
      ≡ true
  pub used : not_negative (sb.sb_no_of_used_blocks -ℤ pos cnt) ≡ true

-- The group after its blocks are cleared.
abbrev cleared_group : Group → (offset : ℕ) → List ℕ → Group
cleared_group g offset bits = record g {
  bd = record g.bd { bd_next_block = offset };
  dbitmap = bits;
}

module _ {State : Type 0} (call : Message → State → Run (State × Option Message)) where
  module _ (chan_id : ℕ) (got : Bool) where
    inc_free_blocks-TakesBack :
        (sb : Super) (bg_id place cnt : ℕ) (s : State)
        → bg_id < length sb.groups
        → (group sb bg_id).bd.bd_id ≡ bg_id
        → place < sb.sb_no_of_blocks_per_bg
        → leb (inc_u32 (group sb bg_id).bd.bd_free_blocks cnt) (group sb bg_id).bd.bd_max_blocks
          ≡ true
        → (not sb.preallocation && sb.is_dataplane) ≡ false
        → TakesBack sb cnt
        → inc_free_blocks call chan_id got (bg_id * sb.sb_no_of_blocks_per_bg + place) cnt sb s
          ≡ ok (more_blocks bg_id cnt sb, s)
    unfolding inc_free_blocks give_back
    inc_free_blocks-TakesBack sb bg_id place cnt s p i h room keeps c =
        rw
          (
            not_zero sb.sb_no_of_blocks_per_bg place h,
            same_group bg_id sb.sb_no_of_blocks_per_bg place h,
            lt→ltb bg_id (length sb.groups) p,
            equal_test (group sb bg_id).bd.bd_id bg_id i,
            room,
            c.total,
            c.own,
            c.used,
            keeps,
          )
          refl

    -- The group after its blocks are cleared and counted.
    freed-IsGroup :
        (n bg_id offset count : ℕ) (g : Group) (bits : List ℕ)
        → IsGroup n bg_id g
        → data_start n g ≤ offset
        → offset < n
        → length bits ≡ length g.dbitmap
        → count_clear (data_start n g) n bits ≡ count + count_clear (data_start n g) n g.dbitmap
        → IsGroup n bg_id
            (with_free (inc_u32 g.bd.bd_free_blocks count) (cleared_group g offset bits))
          × (inc_u32 g.bd.bd_free_blocks count ≡ g.bd.bd_free_blocks + count)
          × (g.bd.bd_free_blocks + count ≤ n)
    freed-IsGroup n bg_id offset count g bits v lo hi long more =
        let small = count_clear-le (data_start n g) n bits in
        (
          record {
            numbered = v.numbered;
            starts = v.starts;
            in_range = v.in_range;
            int_range = v.int_range;
            some_blocks = v.some_blocks;
            metadata = v.metadata;
            bits = omega (arith, long, v.bits);
            next_place = inl (subst (λ m. data_start n g ≤ m) (sym (mod-eq_of_lt hi)) lo);
            counted = omega (arith, v.counted, more, small, v.int_range);
          },
          omega (arith, v.counted, more, small, v.int_range),
          omega (arith, v.counted, more, small),
        )

    room_test : (a b c : ℕ) → a ≡ b → b ≤ c → leb a c ≡ true
    room_test a b c e h = ground arith

    some_test : (count : ℕ) → 1 ≤ count → (count == 0) ≡ false
    some_test count h = ground arith

    -- The answer to a request to free `count` blocks of a group from `offset` on.
    abbrev pub Freed : (sb : Super) (bg_id offset count : ℕ) → State → Type 0
    Freed sb bg_id offset count s =
        (sb' : Super) × (free_dbitmap call chan_id got bg_id offset count sb s ≡ ok (sb', s))
        × Cleared offset count (group sb bg_id).dbitmap (group sb' bg_id).dbitmap
        × ((group sb' bg_id).bd.bd_free_blocks ≡ (group sb bg_id).bd.bd_free_blocks + count)
        × IsGroup sb.sb_no_of_blocks_per_bg bg_id (group sb' bg_id)

    -- What follows the loop.
    ended :
        (sb : Super) (bg_id offset count : ℕ) (s : State) (bits : List ℕ)
        → bg_id < length sb.groups
        → IsGroup sb.sb_no_of_blocks_per_bg bg_id (group sb bg_id)
        → 1 ≤ count
        → offset < sb.sb_no_of_blocks_per_bg
        → clear_blocks count offset (group sb bg_id).dbitmap ≡ ok bits
        → leb (inc_u32 (group sb bg_id).bd.bd_free_blocks count) (group sb bg_id).bd.bd_max_blocks
          ≡ true
        → (not sb.preallocation && sb.is_dataplane) ≡ false
        → TakesBack sb count
        → Cleared offset count (group sb bg_id).dbitmap bits
        → inc_u32 (group sb bg_id).bd.bd_free_blocks count
          ≡ (group sb bg_id).bd.bd_free_blocks + count
        → IsGroup sb.sb_no_of_blocks_per_bg bg_id (
            with_free
              (inc_u32 (group sb bg_id).bd.bd_free_blocks count)
              (cleared_group (group sb bg_id) offset bits))
        → Freed sb bg_id offset count s
    unfolding free_dbitmap
    ended sb bg_id offset count s bits p v one hi e room keeps c k grown v' =
        let n = sb.sb_no_of_blocks_per_bg in
        let g = group sb bg_id in
        let g1 = cleared_group g offset bits in
        let sb1 = set_group sb bg_id g1 in
        let p1 : bg_id < length sb1.groups = omega (arith, length-set sb.groups bg_id g1) in
        let at_sb1 : group sb1 bg_id ≡ g1 = get_or-set_self sb.groups bg_id g1 zero_group p in
        let sb2 = more_blocks bg_id count sb1 in
        let at_sb2 : group sb2 bg_id ≡ with_free (inc_u32 g.bd.bd_free_blocks count) g1 =
          get_or-set_self sb1.groups bg_id
            (with_free (inc_u32 (group sb1 bg_id).bd.bd_free_blocks count) (group sb1 bg_id))
            zero_group p1
          ∙ ap (λ x. with_free (inc_u32 x.bd.bd_free_blocks count) x) at_sb1 in
        let counts =
          inc_free_blocks-TakesBack sb1 bg_id offset count s p1
            (ap (λ x. x.bd.bd_id) at_sb1 ∙ v.numbered) hi
            (ap (λ x. leb (inc_u32 x.bd.bd_free_blocks count) x.bd.bd_max_blocks) at_sb1 ∙ room)
            keeps (record { total = c.total; own = c.own; used = c.used }) in
        (
          sb2,
          rw
              (
                lt→ltb bg_id (length sb.groups) p,
                equal_test g.bd.bd_id bg_id (v.numbered),
                e,
                some_test count one,
                block_number g.bd.bd_bg_start bg_id n offset (v.starts) (v.in_range) hi,
                counts,
              )
              refl,
          subst (λ x. Cleared offset count g.dbitmap x.dbitmap) (sym at_sb2) k,
          ap (λ x. x.bd.bd_free_blocks) at_sb2 ∙ grown,
          subst (λ x. IsGroup n bg_id x) (sym at_sb2) v',
        )

    -- nvfuse_free_dbitmap() on data blocks of a well-formed group that are all taken, with totals
    -- that take them back, in a process that keeps its groups: these blocks are clear afterwards, no
    -- other bit changes, the free count grows by their number, and the group is well-formed again.
    pub free_dbitmap-IsGroup :
        (sb : Super) (bg_id offset count : ℕ) (s : State)
        → bg_id < length sb.groups
        → IsGroup sb.sb_no_of_blocks_per_bg bg_id (group sb bg_id)
        → sb.sb_no_of_blocks_per_bg ≤ (group sb bg_id).bd.bd_max_blocks
        → data_start sb.sb_no_of_blocks_per_bg (group sb bg_id) ≤ offset
        → 1 ≤ count
        → offset + count ≤ sb.sb_no_of_blocks_per_bg
        → ((j : ℕ)
            → offset ≤ j
            → j < offset + count
            → ext2fs_test_bit j (group sb bg_id).dbitmap ≡ true)
        → (not sb.preallocation && sb.is_dataplane) ≡ false
        → TakesBack sb count
        → Freed sb bg_id offset count s
    free_dbitmap-IsGroup sb bg_id offset count s p v room lo one hi taken keeps c =
        let n = sb.sb_no_of_blocks_per_bg in
        let g = group sb bg_id in
        let (bits, e, k, more) =
          clear_blocks-Cleared (data_start n g) n count offset g.dbitmap lo hi (v.bits) taken in
        let (v', grown, fits) =
          freed-IsGroup n bg_id offset count g bits v lo (omega arith) (k.same_size) more in
        ended sb bg_id offset count s bits p v one (omega arith) e
          (room_test (inc_u32 g.bd.bd_free_blocks count) (g.bd.bd_free_blocks + count)
            g.bd.bd_max_blocks grown (omega (arith, fits)))
          keeps c k grown v'

    -- In a group that is there under its number, nvfuse_free_dbitmap() of a range within the bitmap
    -- in which a block is free already stops the process: a block that is freed twice is found out.
    pub free_dbitmap_twice :
        (sb : Super) (bg_id offset count j : ℕ) (s : State)
        → bg_id < length sb.groups
        → (group sb bg_id).bd.bd_id ≡ bg_id
        → offset + count ≤ 8 * length (group sb bg_id).dbitmap
        → offset ≤ j
        → j < offset + count
        → ext2fs_test_bit j (group sb bg_id).dbitmap ≡ false
        → free_dbitmap call chan_id got bg_id offset count sb s ≡ abort
    unfolding free_dbitmap
    free_dbitmap_twice sb bg_id offset count j s p i size lo hi clear =
        rw
          (
            lt→ltb bg_id (length sb.groups) p,
            equal_test (group sb bg_id).bd.bd_id bg_id i,
            clear_blocks-abort count offset j (group sb bg_id).dbitmap size lo hi clear,
          )
          refl
