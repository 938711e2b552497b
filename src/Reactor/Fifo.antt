-- ===== src/Reactor/Fifo.antt =====
-- The rings behave as bounded queues.
use nvfuse.Prelude.{
  ℕ, suc, ◌-◌, ◌≤◌, ◌<◌, ◌≡◌, ◌≢◌, refl, sym, ap, ap₂, ◌∙◌, subst, inl, inr, Option, none, some,
  List, [], ◌∷◌, ◌++◌, length, get_or, set, ◌==◌, if◌then◌else◌, arith, length-set, eq-cases,
}
use nvfuse.Prelude.Int.{ℤ, pos, negsuc}
use nvfuse.Reactor.Defs.{Ring, is_empty, is_full, size, enter, leave, put_req, get_req}
use nvfuse.Reactor.Window.{
  wrap, window, length-window, step-wrap, wrap-lt, window-set_outside, window-set_end,
}

-- A ring whose ends are slots of it.
pub record IsRing (q : ℕ) (r : Ring) : Type 0 where
  pub head_in : r.head < q
  pub tail_in : r.tail < q
  pub slots_enough : q ≤ length r.slots

-- The jobs in a ring, the oldest first.
abbrev pub contents : ℕ → Ring → List (Option ℕ)
contents q r = window r.slots q r.tail (size q r)

-- A queue with room for `room` jobs.
abbrev pub push_job : (room req : ℕ) → List (Option ℕ) → List (Option ℕ) × ℤ
push_job room req jobs =
    if length jobs == room then (jobs, negsuc 0) else (jobs ++ some req ∷ [], pos 0)

abbrev pub pop_job : List (Option ℕ) → List (Option ℕ) × Option ℕ
pop_job [] = ([], none)
pop_job (req ∷ jobs) = (jobs, req)

module _ (q : ℕ) (r : Ring) (v : IsRing q r) where
  pub size-lt : size q r < q
  unfolding size
  size-lt = ground (arith, v.head_in, v.tail_in)

  pub head-wrap : r.head ≡ wrap q r.tail (size q r)
  unfolding size
  head-wrap = ground (arith, v.head_in, v.tail_in)

  pub is_full-size : is_full q r ≡ (size q r == (q - 1))
  unfolding size is_full
  is_full-size = ground (arith, v.head_in, v.tail_in)

  is_empty-size : is_empty r ≡ (size q r == 0)
  unfolding size is_empty
  is_empty-size = ground (arith, v.head_in, v.tail_in)

  pub size-enter : (req : ℕ) → size q r ≢ q - 1 → size q (enter q req r) ≡ suc (size q r)
  unfolding size enter
  size-enter req h = rw (step-wrap q r.head (v.head_in)) (ground (arith, v.head_in, v.tail_in))

  pub size-leave : (n : ℕ) → size q r ≡ suc n → size q (leave q r) ≡ n
  unfolding size leave
  size-leave n h = rw (step-wrap q r.tail (v.tail_in)) (ground (arith, v.head_in, v.tail_in))

  pub enter-IsRing : (req : ℕ) → IsRing q (enter q req r)
  unfolding enter
  enter-IsRing req = record {
    head_in = omega (arith, v.head_in);
    tail_in = v.tail_in;
    slots_enough = omega (arith, v.slots_enough, length-set r.slots r.head (some req));
  }

  pub leave-IsRing : IsRing q (leave q r)
  unfolding leave
  leave-IsRing = record {
    head_in = v.head_in;
    tail_in = omega (arith, v.tail_in);
    slots_enough = omega (arith, v.slots_enough, length-set r.slots r.tail none);
  }

  pub contents-enter :
      (req : ℕ) → size q r ≢ q - 1 → contents q (enter q req r) ≡ contents q r ++ some req ∷ []
  unfolding enter
  contents-enter req h =
      ap (λ n. window (set r.slots r.head (some req)) q r.tail n) (size-enter req h)
      ∙ window-set_end r.slots q r.tail (size q r) r.head (some req) (v.slots_enough) (v.tail_in)
          size-lt head-wrap

  -- The cleared slot lies behind the rest of the window.
  pub contents-leave :
      (n : ℕ)
      → size q r ≡ suc n
      → contents q r ≡ get_or r.slots r.tail none ∷ contents q (leave q r)
  unfolding leave
  contents-leave n h =
      ap (λ k. window r.slots q r.tail k) h
      ∙ ap (λ t. get_or r.slots r.tail none ∷ t)
          (sym (
            ap₂ (λ t k. window (set r.slots r.tail none) q t k) (step-wrap q r.tail (v.tail_in))
              (size-leave n h)
            ∙ window-set_outside r.slots q (wrap q r.tail 1) n (q - 1) r.tail none
                (wrap-lt q r.tail 1 (v.tail_in) (omega (arith, v.tail_in))) (omega (arith, size-lt))
                (omega (arith, v.tail_in)) (ground (arith, v.tail_in))))

  put-full : size q r ≡ q - 1 → (req : ℕ) → put_req q req r ≡ (r, negsuc 0)
  unfolding put_req
  put-full h req = rw is_full-size (ground arith)

  pub put-room : size q r ≢ q - 1 → (req : ℕ) → put_req q req r ≡ (enter q req r, pos 0)
  unfolding put_req
  put-room h req = rw is_full-size (ground arith)

  get-empty : size q r ≡ 0 → get_req q r ≡ (r, none)
  unfolding get_req
  get-empty h = rw is_empty-size (ground arith)

  get-some : size q r ≢ 0 → get_req q r ≡ (leave q r, get_or r.slots r.tail none)
  unfolding get_req
  get-some h = rw is_empty-size (ground arith)

  length-contents : length (contents q r) ≡ size q r
  length-contents = length-window r.slots q r.tail (size q r)

  -- On a ring of `q` slots, `put` does what a queue with room for `q - 1` jobs does: the job is put
  -- last and the answer is 0, or the queue is full, nothing changes and the answer is -1. The ends
  -- stay slots of the ring.
  pub put_req_refines :
      (req : ℕ)
      → ((contents q (put_req q req r).0, (put_req q req r).1)
          ≡ push_job (q - 1) req (contents q r))
        × IsRing q (put_req q req r).0
  put_req_refines req = elim (eq-cases (size q r) (q - 1)) [
    | inl e ↦ (
      ap (λ p. (contents q (p.0), p.1)) (put-full e.1 req)
          ∙ sym (
              ap
                (λ b.
                  if b then (contents q r, negsuc 0) else (contents q r ++ some req ∷ [], pos 0))
                (ap (λ n. n == (q - 1)) length-contents ∙ e.0)),
      subst (λ p. IsRing q (p.0)) (sym (put-full e.1 req)) v,
    )
    | inr n ↦ (
      ap (λ p. (contents q (p.0), p.1)) (put-room n.1 req)
          ∙ ap (λ t. (t, pos 0)) (contents-enter req n.1)
          ∙ sym (
              ap
                (λ b.
                  if b then (contents q r, negsuc 0) else (contents q r ++ some req ∷ [], pos 0))
                (ap (λ n. n == (q - 1)) length-contents ∙ n.0)),
      subst (λ p. IsRing q (p.0)) (sym (put-room n.1 req)) (enter-IsRing req),
    )
  ]

  -- On a ring of `q` slots, `get` takes the oldest job of the queue, or NULL if there is none. The
  -- ends stay slots of the ring.
  pub get_req_refines :
      ((contents q (get_req q r).0, (get_req q r).1) ≡ pop_job (contents q r))
      × IsRing q (get_req q r).0
  get_req_refines = elim (eq-cases (size q r) 0) [
    | inl e ↦ (
      ap (λ p. (contents q (p.0), p.1)) (get-empty e.1) ∙ rw e.1 refl,
      subst (λ p. IsRing q (p.0)) (sym (get-empty e.1)) v,
    )
    | inr n ↦ (
      ap (λ p. (contents q (p.0), p.1)) (get-some n.1)
          ∙ sym (ap pop_job (contents-leave (size q r - 1) (omega arith))),
      subst (λ p. IsRing q (p.0)) (sym (get-some n.1)) leave-IsRing,
    )
  ]
