-- ===== src/Groups/Taken.antt =====
-- What the search of nvfuse_alloc_dbitmap() takes: blocks that were free, and all of them where it
-- takes fewer than were asked for.
use nvfuse.Prelude.{
  ℕ, suc, ◌+◌, ◌*◌, ◌%◌, ◌/◌, ◌^◌, ◌<◌, ◌≤◌, ◌≡◌, refl, ◌∙◌, ◌⊎◌, inl, inr, true, false, arith,
  List, [], ◌∷◌, length, ltb, ◌==◌, if◌then◌else◌, Bool-cases, eq-cases, length-set,
}
use nvfuse.Run.{ok}
use nvfuse.Bitmap.Bits.{ext2fs_test_bit, ext2fs_set_bit, test_bit-set_bit}
use nvfuse.Groups.Defs.{dec_u32, inc_u32}
use nvfuse.Groups.Blocks.{Taking, take_blocks}

-- From a bitmap to another by the blocks taken one after the other, each of which was clear.
pub data Taken (n start bg_start : ℕ) : List ℕ → List ℕ → List ℕ → Type 0 where
  nothing : {bits : List ℕ} → Taken n start bg_start bits [] bits
  one_more :
      {bits blocks bits' : List ℕ} (block : ℕ)
      → start ≤ block
      → block < n
      → ext2fs_test_bit block bits ≡ false
      → Taken n start bg_start (ext2fs_set_bit block bits) blocks bits'
      → Taken n start bg_start bits (inc_u32 bg_start block ∷ blocks) bits'

-- The outcome of a search for `num` blocks. Fewer are taken only where no data block is left.
pub record IsTaking (n start bg_start num next : ℕ) (bits : List ℕ) (t : Taking) : Type 0 where
  pub taken : Taken n start bg_start bits t.blocks t.bitmap
  pub at_most : length t.blocks ≤ num
  pub all_taken :
      length t.blocks < num → (j : ℕ) → start ≤ j → j < n → ext2fs_test_bit j t.bitmap ≡ true
  pub place_in : t.place < n
  pub next_in : (t.next_block ≡ next) ⊎ (start ≤ t.next_block) × (t.next_block < n)

-- A bitmap with more blocks set, `block` among them.
pub record Grown (block : ℕ) (bits bits' : List ℕ) : Type 0 where
  pub is_set : ext2fs_test_bit block bits' ≡ true
  pub kept : (j : ℕ) → ext2fs_test_bit j bits ≡ true → ext2fs_test_bit j bits' ≡ true
  pub same_size : length bits' ≡ length bits

same-Grown : (block : ℕ) (bits : List ℕ) → ext2fs_test_bit block bits ≡ true → Grown block bits bits
same-Grown block bits t = record { is_set = t; kept = λ j h. h; same_size = refl }

set_bit-Grown :
    (block : ℕ) (bits : List ℕ)
    → block / 8 < length bits
    → Grown block bits (ext2fs_set_bit block bits)
unfolding ext2fs_set_bit
set_bit-Grown block bits h = record {
  is_set = test_bit-set_bit block block bits h ∙ ground arith;
  kept = λ j t. test_bit-set_bit block j bits h ∙ ground arith;
  same_size = length-set bits (block / 8) _;
}

module _ (n start bg_start : ℕ) where
  -- A search that comes to an end.
  abbrev pub Ends : (fuel cnt free_block num next_block : ℕ) → List ℕ → Type 0
  Ends fuel cnt free_block num next_block bits =
      (t : Taking) × (take_blocks n start bg_start fuel cnt free_block num next_block bits ≡ ok t)
      × IsTaking n start bg_start num next_block bits t

  -- The block that a round tests, and its count afterwards.
  abbrev pub tested : (free_block : ℕ) → ℕ
  tested free_block = if free_block == 0 then start else free_block

  abbrev pub counted : (cnt free_block : ℕ) → ℕ
  counted cnt free_block = if free_block == 0 then inc_u32 (cnt + 1) (dec_u32 start 1) else cnt + 1

  -- One round of the loop, given what the rest of the loop does.
  pub round-Ends :
      (fuel cnt free_block num next_block : ℕ) (bits : List ℕ)
      → ltb cnt n ≡ true
      → start ≤ tested free_block
      → tested free_block < n
      → n ≤ 8 * length bits
      → 1 ≤ num
      → num < 2 ^ 32
      → ((num' next : ℕ) (bits' : List ℕ)
          → Grown (tested free_block) bits bits'
          → 1 ≤ num'
          → num' < 2 ^ 32
          → Ends fuel (counted cnt free_block) ((tested free_block + 1) % n) num' next bits')
      → Ends (suc fuel) cnt free_block num next_block bits
  unfolding take_blocks
  round-Ends fuel cnt f num next bits l lo hi size one fits rest =
      elim (Bool-cases (ext2fs_test_bit (tested f) bits)) [
        | inl t ↦
            let (r, e, i) = rest num next bits (same-Grown (tested f) bits t) one fits in
            (r, rw (l, t, take_blocks) e, i)
        | inr c ↦
            let g = set_bit-Grown (tested f) bits (omega arith) in
            elim (eq-cases (dec_u32 num 1) 0) [
              | inl z ↦ (
                _,
                rw (l, c, z.0, take_blocks) refl,
                last_one (tested f) num next bits lo hi c (omega (arith, z.1)),
              )
              | inr z ↦
                  let (r, e, i) =
                    rest (dec_u32 num 1) (tested f) (ext2fs_set_bit (tested f) bits) g
                      (omega (arith, z.1)) (omega arith) in
                  (
                    record r { blocks = inc_u32 bg_start (tested f) ∷ r.blocks },
                    rw (l, c, z.0, e, take_blocks) refl,
                    and_more (tested f) num next bits r lo hi c one fits i,
                  )
            ]
      ]
    where
      in_data :
          (next block : ℕ)
          → start ≤ block
          → block < n
          → (next ≡ block) ⊎ (start ≤ next) × (next < n)
          → (start ≤ next) × (next < n)
      in_data next block lo hi (inl e) = (omega arith, omega arith)
      in_data next block lo hi (inr h) = h

      last_one :
          (block num next : ℕ) (bits : List ℕ)
          → start ≤ block
          → block < n
          → ext2fs_test_bit block bits ≡ false
          → num ≡ 1
          → IsTaking n start bg_start num next bits (record {
            bitmap = ext2fs_set_bit block bits;
            next_block = block;
            blocks = inc_u32 bg_start block ∷ [];
            place = block;
          })
      last_one block num next bits lo hi c e = record {
        taken = one_more block lo hi c nothing;
        at_most = omega arith;
        all_taken = λ few. absurd (omega arith);
        place_in = hi;
        next_in = inr (lo, hi);
      }

      and_more :
          (block num next : ℕ) (bits : List ℕ) (r : Taking)
          → start ≤ block
          → block < n
          → ext2fs_test_bit block bits ≡ false
          → 1 ≤ num
          → num < 2 ^ 32
          → IsTaking n start bg_start (dec_u32 num 1) block (ext2fs_set_bit block bits) r
          → IsTaking n start bg_start num next bits
              (record r { blocks = inc_u32 bg_start block ∷ r.blocks })
      and_more block num next bits r lo hi c one fits i = record {
        taken = one_more block lo hi c i.taken;
        at_most = omega (arith, i.at_most);
        all_taken = λ few. i.all_taken (omega arith);
        place_in = i.place_in;
        next_in = inr (in_data r.next_block block lo hi (i.next_in));
      }
