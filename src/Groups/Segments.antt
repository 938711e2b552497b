-- ===== src/Groups/Segments.antt =====
-- nvfuse_free_blocks() gathers its blocks one by one. It does the same as a walk over the groups
-- that frees, in each of them, the part of the range that lies in it.
use nvfuse.Prelude.{
  ℕ, zero, suc, ◌+◌, ◌-◌, ◌*◌, ◌/◌, ◌%◌, ◌<◌, ◌≤◌, ◌≡◌, refl, sym, ap, ◌∙◌, inl, inr, Bool, true,
  false, arith, Option, leb, ltb, ◌^◌, ◌==◌, if◌then◌else◌, lt-cases,
}
use nvfuse.Run.{bind_congr, Run, ok, ◌>>=◌}
use nvfuse.Ipc.Message.{Message}
use nvfuse.Groups.Defs.{Super}
use nvfuse.Groups.Blocks.{free_dbitmap, gather_blocks, free_blocks}
use nvfuse.Groups.WellFormed.{same_place, same_group, not_zero}
use nvfuse.Groups.Gather.{gather, gather_rest, gather_past}
use native.Mathlib.Nat.{div-add-mod'}

module _ {State : Type 0} (call : Message → State → Run (State × Option Message)) where
  module _ (chan_id : ℕ) (got : Bool) (per_bg : ℕ) where
    -- The walk over the groups. Each has `room` blocks from the start of the range on.
    unfoldable pub free_segments : (fuel blk count : ℕ) → Super → State → Run (Super × State)
    free_segments zero blk count sb s = ok (sb, s)
    free_segments (suc fuel) blk count sb s =
        let room = per_bg - blk % per_bg in
        if count == 0
        then ok (sb, s)
        else if leb count room
        then free_dbitmap call chan_id got (blk / per_bg) (blk % per_bg) count sb s
        else (free_dbitmap call chan_id got (blk / per_bg) (blk % per_bg) room sb s >>= λ r.
            free_segments fuel (blk + room) (count - room) (r.0) (r.1))

    -- A step of the walk.
    segments-last :
        (fuel count bg_id offset : ℕ) (sb : Super) (s : State)
        → offset < per_bg
        → leb (suc count) (per_bg - offset) ≡ true
        → free_segments (suc fuel) (bg_id * per_bg + offset) (suc count) sb s
          ≡ free_dbitmap call chan_id got bg_id offset (suc count) sb s
    unfolding free_segments
    segments-last fuel count bg_id offset sb s h l =
        rw
          (
            same_place bg_id per_bg offset h,
            same_group bg_id per_bg offset h,
            l,
            not_zero (suc count) count (omega arith),
          )
          refl

    segments-more :
        (fuel count bg_id offset : ℕ) (sb : Super) (s : State)
        → offset < per_bg
        → leb (suc count) (per_bg - offset) ≡ false
        → free_segments (suc fuel) (bg_id * per_bg + offset) (suc count) sb s ≡ (
            free_dbitmap call chan_id got bg_id offset (per_bg - offset) sb s >>= λ r.
            free_segments fuel
              (bg_id * per_bg + offset + (per_bg - offset))
              (suc count - (per_bg - offset))
              (r.0)
              (r.1))
    unfolding free_segments
    segments-more fuel count bg_id offset sb s h l =
        rw
          (
            same_place bg_id per_bg offset h,
            same_group bg_id per_bg offset h,
            l,
            not_zero (suc count) count (omega arith),
          )
          refl

    fits_test : (a b : ℕ) → a ≤ b → leb a b ≡ true
    fits_test a b h = ground arith

    exceeds_test : (a b : ℕ) → b < a → leb a b ≡ false
    exceeds_test a b h = ground arith

    -- From any place of a group, the loop does what the walk does.
    gather-segments :
        (fuel count bg_id offset : ℕ) (sb : Super) (s : State)
        → count ≤ fuel
        → offset < per_bg
        → gather call chan_id got per_bg count (bg_id * per_bg + offset) bg_id offset 0 sb s
          ≡ free_segments fuel (bg_id * per_bg + offset) count sb s
    unfolding gather_blocks free_segments
    gather-segments zero zero bg_id offset sb s f h = refl
    gather-segments zero (suc count) bg_id offset sb s f h = absurd (omega arith)
    gather-segments (suc fuel) zero bg_id offset sb s f h = refl
    gather-segments (suc fuel) (suc count) bg_id offset sb s f h =
        let start : bg_id * per_bg + offset ≡ bg_id * per_bg + (offset + 0) = omega arith in
        ap (λ b. gather call chan_id got per_bg (suc count) b bg_id offset 0 sb s) start
        ∙ elim (lt-cases (per_bg - offset) (suc count)) [
          | inr fits ↦
              let all : 0 + suc count ≡ suc count = omega arith in
              gather_rest call chan_id got per_bg count bg_id offset 0 sb s (omega (arith, fits.1))
              ∙ ap (λ c. free_dbitmap call chan_id got bg_id offset c sb s) all
              ∙ sym (
                  segments-last fuel count bg_id offset sb s h
                    (fits_test (suc count) (per_bg - offset) (fits.1)))
          | inl more ↦
              let ahead : ℕ = per_bg - offset - 1 in
              let left : ℕ = count - ahead in
              let room : 0 + suc ahead ≡ per_bg - offset = omega arith in
              let next : (bg_id + 1) * per_bg + 0 ≡ bg_id * per_bg + offset + (per_bg - offset) =
                omega arith in
              let rest : left ≡ suc count - (per_bg - offset) = omega (arith, more.1) in
              gather_past call chan_id got per_bg ahead count left bg_id offset 0 sb s (omega arith)
                (omega (arith, more.1))
              ∙ bind_congr (free_dbitmap call chan_id got bg_id offset (0 + suc ahead) sb s) (λ r.
                gather-segments fuel left (bg_id + 1) 0 (r.0) (r.1) (omega (arith, more.1))
                  (omega arith)
                ∙ ap (λ b. free_segments fuel b left (r.0) (r.1)) next
                ∙ ap
                    (λ c.
                      free_segments fuel (bg_id * per_bg + offset + (per_bg - offset)) c (r.0)
                        (r.1))
                    rest)
              ∙ ap
                  (λ c. free_dbitmap call chan_id got bg_id offset c sb s >>= λ r.
                    free_segments fuel (bg_id * per_bg + offset + (per_bg - offset))
                      (suc count - (per_bg - offset)) (r.0) (r.1))
                  room
              ∙ sym (
                  segments-more fuel count bg_id offset sb s h
                    (exceeds_test (suc count) (per_bg - offset) (more.1)))
        ]

-- nvfuse_free_blocks() in a file system with blocks in its groups. Where the range ends below 2 ^ 32, it
-- is the walk over the groups of the range, from the first to the last, that frees in each of them at
-- once the part of the range that lies in it; a group where this fails ends both. Where the end of the
-- range is 2 ^ 32 or more, for a start and a count below, nothing is freed and nothing changes.
pub free_blocks-segments :
    {State : Type 0} (call : Message → State → Run (State × Option Message)) (chan_id : ℕ)
    (got : Bool) (sb : Super) (blk count : ℕ) (s : State)
    → 1 ≤ sb.sb_no_of_blocks_per_bg
    → blk < 2 ^ 32
    → count < 2 ^ 32
    → free_blocks call chan_id got blk count sb s ≡ (
        if ltb (blk + count) (2 ^ 32)
        then free_segments call chan_id got sb.sb_no_of_blocks_per_bg count blk count sb s
        else ok (sb, s))
unfolding free_blocks gather_blocks
free_blocks-segments call chan_id got sb blk count s some_blocks first few =
    let n = sb.sb_no_of_blocks_per_bg in
    elim (lt-cases (blk + count) (2 ^ 32)) [
      | inl below ↦
          let rounds : (blk + count) % 2 ^ 32 - blk ≡ count = omega (arith, below.1) in
          rw (not_zero n 0 some_blocks, below.0, rounds)
            (ap (λ b. gather_blocks call chan_id got n count b (blk / n) (blk % n) 0 sb s)
                (sym (div-add-mod' blk n))
              ∙ gather-segments call chan_id got n count count (blk / n) (blk % n) sb s
                  (omega arith) (omega arith)
              ∙ ap (λ b. free_segments call chan_id got n count b count sb s) (div-add-mod' blk n))
      | inr past ↦
          let rounds : (blk + count) % 2 ^ 32 - blk ≡ 0 = omega (arith, past.1) in
          rw (not_zero n 0 some_blocks, past.0, rounds) refl
    ]
