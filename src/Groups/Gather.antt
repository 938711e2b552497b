-- ===== src/Groups/Gather.antt =====
-- The loop of nvfuse_free_blocks() within a group, and past its end.
use nvfuse.Prelude.{
  ℕ, zero, suc, ◌+◌, ◌*◌, ◌/◌, ◌%◌, ◌≤◌, ◌≡◌, refl, ap, ◌∙◌, Bool, true, false, not, ◌||◌, arith,
  Option, ◌==◌,
}
use nvfuse.Run.{bind_congr, >>=_ok, Run, ◌>>=◌}
use nvfuse.Ipc.Message.{Message}
use nvfuse.Groups.Defs.{Super}
use nvfuse.Groups.Blocks.{free_dbitmap, gather_blocks}
use nvfuse.Groups.WellFormed.{same_place, same_group}

module _ {State : Type 0} (call : Message → State → Run (State × Option Message)) where
  module _ (chan_id : ℕ) (got : Bool) (per_bg : ℕ) where
    end_of_group :
        (bg_id place : ℕ)
        → place + 1 ≡ per_bg
        → bg_id * per_bg + place + 1 ≡ (bg_id + 1) * per_bg + 0
    end_of_group bg_id place h = omega arith

    -- The loop with `left` blocks to go, of which those up to the end of the group are taken at once.
    abbrev pub gather : (left blk bg_id offset length : ℕ) → Super → State → Run (Super × State)
    gather = gather_blocks call chan_id got per_bg

    go_on :
        (bg_id next left : ℕ) → next ≡ bg_id → 1 ≤ left → (not (bg_id == next) || left == 0) ≡ false
    go_on bg_id next left e h = ground arith

    stop_last : (bg_id next left : ℕ) → left ≡ 0 → (not (bg_id == next) || left == 0) ≡ true
    stop_last bg_id next left h = ground arith

    stop_next : (bg_id next left : ℕ) → next ≡ bg_id + 1 → (not (bg_id == next) || left == 0) ≡ true
    stop_next bg_id next left h = ground arith

    -- All that is left lies in the group.
    pub gather_rest :
        (left bg_id offset length : ℕ) (sb : Super) (s : State)
        → offset + length + suc left ≤ per_bg
        → gather (suc left) (bg_id * per_bg + (offset + length)) bg_id offset length sb s
          ≡ free_dbitmap call chan_id got bg_id offset (length + suc left) sb s
    unfolding gather_blocks
    gather_rest zero bg_id offset length sb s h =
        rw
          (
            stop_last bg_id ((bg_id * per_bg + (offset + length) + 1) / per_bg) 0 refl,
            gather_blocks,
          )
          (>>=_ok (free_dbitmap call chan_id got bg_id offset (length + 1) sb s))
    gather_rest (suc left) bg_id offset length sb s h =
        let e : bg_id * per_bg + (offset + length) + 1 ≡ bg_id * per_bg + (offset + (length + 1)) =
          omega arith in
        let more : length + 1 + suc left ≡ length + suc (suc left) = omega arith in
        let same =
          ap (λ x. x / per_bg) e ∙ same_group bg_id per_bg (offset + (length + 1)) (omega arith) in
        rw
          (
            go_on bg_id ((bg_id * per_bg + (offset + length) + 1) / per_bg) (suc left) same
                (omega arith),
            gather_blocks,
          )
          (ap (λ b. gather (suc left) b bg_id offset (length + 1) sb s) e
            ∙ gather_rest left bg_id offset (length + 1) sb s (omega arith)
            ∙ ap (λ c. free_dbitmap call chan_id got bg_id offset c sb s) more)

    -- The loop goes past the end of the group, which `suc ahead` blocks are before.
    pub gather_past :
        (ahead total left bg_id offset length : ℕ) (sb : Super) (s : State)
        → offset + length + suc ahead ≡ per_bg
        → total ≡ ahead + left
        → gather (suc total) (bg_id * per_bg + (offset + length)) bg_id offset length sb s ≡ (
            free_dbitmap call chan_id got bg_id offset (length + suc ahead) sb s >>= λ r.
            gather left ((bg_id + 1) * per_bg + 0) (bg_id + 1) 0 0 (r.0) (r.1))
    unfolding gather_blocks
    gather_past zero total left bg_id offset length sb s h t =
        let e : bg_id * per_bg + (offset + length) + 1 ≡ (bg_id + 1) * per_bg + 0 =
          end_of_group bg_id (offset + length) (omega arith) in
        let next = ap (λ x. x / per_bg) e ∙ same_group (bg_id + 1) per_bg 0 (omega arith) in
        let first = ap (λ x. x % per_bg) e ∙ same_place (bg_id + 1) per_bg 0 (omega arith) in
        rw
          (
            stop_next bg_id ((bg_id * per_bg + (offset + length) + 1) / per_bg) total next,
            gather_blocks,
          )
          (bind_congr (free_dbitmap call chan_id got bg_id offset (length + 1) sb s) (λ r.
            ap
              (λ n.
                gather n (bg_id * per_bg + (offset + length) + 1)
                  ((bg_id * per_bg + (offset + length) + 1) / per_bg)
                  ((bg_id * per_bg + (offset + length) + 1) % per_bg) 0 (r.0) (r.1))
              (t ∙ zero_sum left)
            ∙ ap
                (λ b.
                  gather left b ((bg_id * per_bg + (offset + length) + 1) / per_bg)
                    ((bg_id * per_bg + (offset + length) + 1) % per_bg) 0 (r.0) (r.1))
                e
            ∙ ap
                (λ g.
                  gather left ((bg_id + 1) * per_bg + 0) g
                    ((bg_id * per_bg + (offset + length) + 1) % per_bg) 0 (r.0) (r.1))
                next
            ∙ ap (λ o. gather left ((bg_id + 1) * per_bg + 0) (bg_id + 1) o 0 (r.0) (r.1)) first))
      where
        zero_sum : (left : ℕ) → 0 + left ≡ left
        zero_sum left = omega arith
    gather_past (suc ahead) zero left bg_id offset length sb s h t = absurd (omega arith)
    gather_past (suc ahead) (suc total) left bg_id offset length sb s h t =
        let e : bg_id * per_bg + (offset + length) + 1 ≡ bg_id * per_bg + (offset + (length + 1)) =
          omega arith in
        let more : length + 1 + suc ahead ≡ length + suc (suc ahead) = omega arith in
        let same =
          ap (λ x. x / per_bg) e ∙ same_group bg_id per_bg (offset + (length + 1)) (omega arith) in
        rw
          (
            go_on bg_id ((bg_id * per_bg + (offset + length) + 1) / per_bg) (suc total) same
                (omega arith),
            gather_blocks,
          )
          (ap (λ b. gather (suc total) b bg_id offset (length + 1) sb s) e
            ∙ gather_past ahead total left bg_id offset (length + 1) sb s (omega arith)
                (omega arith)
            ∙ ap
                (λ c. free_dbitmap call chan_id got bg_id offset c sb s >>= λ r.
                  gather left ((bg_id + 1) * per_bg + 0) (bg_id + 1) 0 0 (r.0) (r.1))
                more)
