-- ===== src/Groups/Alloc.antt =====
-- nvfuse_alloc_dbitmap() as a whole: what it takes, and the counts.
use nvfuse.Prelude.{
  ℕ, suc, ◌+◌, ◌*◌, ◌%◌, ◌^◌, ◌<◌, ◌≤◌, ◌≡◌, refl, sym, ap, subst, ◌∙◌, ◌⊎◌, inl, inr, true, false,
  arith, List, [], ◌∷◌, length, min, if◌then◌else◌, ◌==◌, eq-cases, lt-cases, length-set,
  get_or-set_self, lt→ltb,
}
use nvfuse.Prelude.Int.{pos, ◌-ℤ◌, ◌+ℤ◌}
use nvfuse.Run.{ok}
use nvfuse.Groups.Defs.{
  Group, Super, group, zero_group, set_group, dec_u32, inc_u32, not_negative, within, fewer_blocks,
  dec_free_blocks,
}
use nvfuse.Groups.Blocks.{Taking, take_blocks, alloc_dbitmap}
use nvfuse.Groups.Taken.{Taken, IsTaking}
use nvfuse.Groups.Search.{take_blocks-IsTaking}
use nvfuse.Groups.Accounts.{count_clear-Taken, count_clear-full, count_clear-le}
use nvfuse.Groups.WellFormed.{
  data_start, IsGroup, with_free, equal_test, not_zero, same_group, block_number,
}
use native.Mathlib.Nat.{mod-eq_of_lt}

-- The totals of the file system, and of the process where it is not the primary, cover `cnt` blocks.
pub record Covers (sb : Super) (cnt : ℕ) : Type 0 where
  pub total : not_negative (sb.sb_free_blocks -ℤ pos cnt) ≡ true
  pub own :
      (if sb.is_primary
        then true
        else not_negative
            (if sb.is_primary then sb.asb_free_blocks else sb.asb_free_blocks -ℤ pos cnt))
      ≡ true
  pub used : within (sb.sb_no_of_used_blocks +ℤ pos cnt) sb.sb_no_of_blocks ≡ true

dec_free_blocks-Covers :
    (sb : Super) (bg_id place cnt : ℕ)
    → bg_id < length sb.groups
    → (group sb bg_id).bd.bd_id ≡ bg_id
    → place < sb.sb_no_of_blocks_per_bg
    → Covers sb cnt
    → dec_free_blocks (bg_id * sb.sb_no_of_blocks_per_bg + place) cnt sb
      ≡ ok (fewer_blocks bg_id cnt sb)
unfolding dec_free_blocks
dec_free_blocks-Covers sb bg_id place cnt p i h c =
    rw
      (
        not_zero sb.sb_no_of_blocks_per_bg place h,
        same_group bg_id sb.sb_no_of_blocks_per_bg place h,
        lt→ltb bg_id (length sb.groups) p,
        equal_test (group sb bg_id).bd.bd_id bg_id i,
        c.total,
        c.own,
        c.used,
      )
      refl

-- The group after a search.
abbrev searched : Group → Taking → Group
searched g t = record g { bd = record g.bd { bd_next_block = t.next_block }; dbitmap = t.bitmap }

-- What was taken, counted off, leaves a well-formed group.
with_free-IsGroup :
    (n bg_id num left : ℕ) (g : Group) (t : Taking)
    → left ≡ dec_u32 g.bd.bd_free_blocks (length t.blocks)
    → IsGroup n bg_id g
    → IsTaking n (data_start n g) g.bd.bd_bg_start num g.bd.bd_next_block g.dbitmap t
    → IsGroup n bg_id (with_free left (searched g t))
      × (length t.blocks ≡ min num g.bd.bd_free_blocks)
with_free-IsGroup n bg_id num left g t e v i =
    let (count, long) = count_clear-Taken n (data_start n g) g.bd.bd_bg_start (v.bits) (i.taken) in
    let small = count_clear-le (data_start n g) n g.dbitmap in
    (
      record {
        numbered = v.numbered;
        starts = v.starts;
        in_range = v.in_range;
        int_range = v.int_range;
        some_blocks = v.some_blocks;
        metadata = v.metadata;
        bits = omega (arith, long, v.bits);
        next_place = place (t.next_block) (i.next_in);
        counted = omega (arith, e, v.counted, count, small, v.int_range);
      },
      all_or_num (length t.blocks) (i.at_most) (v.counted ∙ count)
          (λ few. count_clear-full (data_start n g) n t.bitmap (i.all_taken few)),
    )
  where
    place :
        (next : ℕ)
        → (next ≡ g.bd.bd_next_block) ⊎ (data_start n g ≤ next) × (next < n)
        → (data_start n g ≤ next % n) ⊎ (next % n ≡ 0)
    place next (inl e) = subst (λ m. (data_start n g ≤ m % n) ⊎ (m % n ≡ 0)) (sym e) (v.next_place)
    place next (inr h) = inl (subst (λ m. data_start n g ≤ m) (sym (mod-eq_of_lt (h.1))) (h.0))

    all_or_num :
        (got : ℕ) {left : ℕ}
        → got ≤ num
        → g.bd.bd_free_blocks ≡ got + left
        → (got < num → left ≡ 0)
        → got ≡ min num g.bd.bd_free_blocks
    all_or_num got {left} most e few = elim (lt-cases got num) [
      | inl l ↦ omega (arith, e, few (l.1))
      | inr ge ↦ omega (arith, e, ge.1, most)
    ]

no_blocks : (xs : List ℕ) → length xs ≡ 0 → [] ≡ xs
no_blocks [] e = refl
no_blocks (x ∷ xs) e = absurd (omega arith)

same_free : (free cnt : ℕ) → free < 2 ^ 32 → cnt ≡ 0 → free ≡ dec_u32 free cnt
same_free free cnt h e = omega arith

-- The answer to a request for `num` blocks of a group.
abbrev pub Answered : (sb : Super) (bg_id num : ℕ) → Type 0
Answered sb bg_id num =
    let n = sb.sb_no_of_blocks_per_bg in
    let g = group sb bg_id in
    (sb' : Super) × (blocks : List ℕ) × (alloc_dbitmap bg_id num sb ≡ ok (sb', blocks))
    × Taken n (data_start n g) g.bd.bd_bg_start g.dbitmap blocks (group sb' bg_id).dbitmap
    × (length blocks ≡ min num g.bd.bd_free_blocks)
    × IsGroup n bg_id (group sb' bg_id)

-- What follows a search of the group `g` of a file system with `n` blocks in each group.
module _ (sb : Super) (bg_id num : ℕ) (t : Taking) where
  abbrev n : ℕ
  n = sb.sb_no_of_blocks_per_bg

  abbrev g : Group
  g = group sb bg_id

  -- The state after the search.
  abbrev sb1 : Super
  sb1 = set_group sb bg_id (searched g t)

  module _ (p : bg_id < length sb.groups) (v : IsGroup n bg_id g)
      (c : Covers sb (min num g.bd.bd_free_blocks))
      (e : take_blocks n
          (data_start n g)
          g.bd.bd_bg_start
          (suc (n + n))
          0
          (g.bd.bd_next_block % n)
          num
          g.bd.bd_next_block
          g.dbitmap
        ≡ ok t)
      (i : IsTaking n (data_start n g) g.bd.bd_bg_start num g.bd.bd_next_block g.dbitmap t) where
    at_sb1 : group sb1 bg_id ≡ searched g t
    at_sb1 = get_or-set_self sb.groups bg_id (searched g t) zero_group p

    Taken-at :
        (sb' : Super) (left : ℕ)
        → group sb' bg_id ≡ with_free left (searched g t)
        → Taken n (data_start n g) g.bd.bd_bg_start g.dbitmap t.blocks (group sb' bg_id).dbitmap
    Taken-at sb' left at =
        subst (λ x. Taken n (data_start n g) g.bd.bd_bg_start g.dbitmap t.blocks x.dbitmap) (sym at)
          (i.taken)

    small_free : g.bd.bd_free_blocks < 2 ^ 32
    small_free = omega (arith, v.counted, v.int_range, count_clear-le (data_start n g) n g.dbitmap)

    Answered-none : (length t.blocks == 0) ≡ true → length t.blocks ≡ 0 → Answered sb bg_id num
    unfolding alloc_dbitmap
    Answered-none z is_zero =
        let (v', l) =
          with_free-IsGroup n bg_id num g.bd.bd_free_blocks g t
            (same_free g.bd.bd_free_blocks (length t.blocks) small_free is_zero) v i in
        (
          sb1,
          t.blocks,
          rw (lt→ltb bg_id (length sb.groups) p, not_zero n (t.place) (i.place_in), e, z)
              (ap (λ xs. ok (sb1, xs)) (no_blocks t.blocks is_zero)),
          Taken-at sb1 g.bd.bd_free_blocks at_sb1,
          l,
          subst (λ x. IsGroup n bg_id x) (sym at_sb1) v',
        )

    -- The state after the count.
    abbrev sb2 : Super
    sb2 = fewer_blocks bg_id (length t.blocks) sb1

    abbrev left : ℕ
    left = dec_u32 g.bd.bd_free_blocks (length t.blocks)

    present_sb1 : bg_id < length sb1.groups
    present_sb1 = omega (arith, length-set sb.groups bg_id (searched g t))

    at_sb2 : group sb2 bg_id ≡ with_free left (searched g t)
    at_sb2 =
        get_or-set_self sb1.groups bg_id
          (with_free (dec_u32 (group sb1 bg_id).bd.bd_free_blocks (length t.blocks))
            (group sb1 bg_id))
          zero_group present_sb1
        ∙ ap (λ x. with_free (dec_u32 x.bd.bd_free_blocks (length t.blocks)) x) at_sb1

    counts_sb1 :
        length t.blocks ≡ min num g.bd.bd_free_blocks
        → dec_free_blocks (inc_u32 g.bd.bd_bg_start t.place) (length t.blocks) sb1 ≡ ok sb2
    counts_sb1 l =
        let k = subst (λ m. Covers sb m) (sym l) c in
        ap (λ b. dec_free_blocks b (length t.blocks) sb1)
          (block_number g.bd.bd_bg_start bg_id n (t.place) (v.starts) (v.in_range) (i.place_in))
        ∙ dec_free_blocks-Covers sb1 bg_id (t.place) (length t.blocks) present_sb1
            (ap (λ x. x.bd.bd_id) at_sb1 ∙ v.numbered) (i.place_in)
            (record { total = k.total; own = k.own; used = k.used })

    Answered-some : (length t.blocks == 0) ≡ false → Answered sb bg_id num
    unfolding alloc_dbitmap
    Answered-some nz =
        let (v', l) = with_free-IsGroup n bg_id num left g t refl v i in
        (
          sb2,
          t.blocks,
          rw
              (
                lt→ltb bg_id (length sb.groups) p,
                not_zero n (t.place) (i.place_in),
                e,
                nz,
                counts_sb1 l,
              )
              refl,
          Taken-at sb2 left at_sb2,
          l,
          subst (λ x. IsGroup n bg_id x) (sym at_sb2) v',
        )

    answered : Answered sb bg_id num
    answered = elim (eq-cases (length t.blocks) 0) [
      | inl z ↦ Answered-none (z.0) (z.1)
      | inr nz ↦ Answered-some (nz.0)
    ]

-- nvfuse_alloc_dbitmap() for at least one block and fewer than 2 ^ 32, on a well-formed group and with
-- totals that cover what is taken, gives as many blocks as were asked for, or all that are free where
-- these are fewer. Each was free when it was taken, none but these change in the bitmap, and the group
-- is well-formed again: its free count is the number of its clear bits.
pub alloc_dbitmap-IsGroup :
    (sb : Super) (bg_id num : ℕ)
    → bg_id < length sb.groups
    → IsGroup sb.sb_no_of_blocks_per_bg bg_id (group sb bg_id)
    → 1 ≤ num
    → num < 2 ^ 32
    → Covers sb (min num (group sb bg_id).bd.bd_free_blocks)
    → Answered sb bg_id num
alloc_dbitmap-IsGroup sb bg_id num p v one fits c =
    let n = sb.sb_no_of_blocks_per_bg in
    let g = group sb bg_id in
    let r =
      take_blocks-IsTaking n (data_start n g) g.bd.bd_bg_start (n + n) (g.bd.bd_next_block % n) num
        g.bd.bd_next_block g.dbitmap (v.metadata) (omega (arith, v.some_blocks)) (v.int_range)
        (omega arith) (v.bits) one fits (omega (arith, v.some_blocks)) (v.next_place) in
    answered sb bg_id num (r.0) p v c (r.1) (r.2)
