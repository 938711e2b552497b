-- ===== src/ControlPlane/Buffer.antt =====
-- The primary process's account of buffers: nvfuse_control_plane_buffer_init(), _alloc() and _free()
-- of nvfuse_control_plane.c. Sizes are integers; a sum outside s32 is undefined in C.
use nvfuse.Prelude.{
  ℕ, ◌<◌, ◌≡◌, Bool, true, false, ◌||◌, not, arith, ◌==◌, if◌then◌else◌, Bool-cases, inl, inr,
}
use nvfuse.Prelude.Int.{ℤ, pos, negsuc, ◌+ℤ◌, ◌-ℤ◌, ◌≤ℤ◌, ltb_ℤ, +ℤ_parts, -ℤ_parts, eq_of_parts}
use nvfuse.Run.{Run, ok, ◌>>=◌, ◌>>◌, assert}
use nvfuse.ControlPlane.State.{ControlPlane}

abbrev pub is_zero : ℤ → Bool
is_zero (pos n) = n == 0
is_zero (negsuc n) = false

unfoldable pub buffer_init : ℤ → ControlPlane → ControlPlane × ℤ
buffer_init size cp =
    if is_zero size
    then (cp, negsuc 0)
    else (record cp { total_buffer_size = size; curr_buffer_size = size }, pos 0)

-- The granted size is what is returned; the assertion wants it not to be 0.
unfoldable pub buffer_alloc : ℤ → ControlPlane → Run (ControlPlane × ℤ)
buffer_alloc size cp = if ltb_ℤ cp.curr_buffer_size size then ok (cp, pos 0) else do
  assert (not (is_zero size))
  ok (record cp { curr_buffer_size = cp.curr_buffer_size -ℤ size }, size)

unfoldable pub buffer_free : ℤ → ControlPlane → Run (ControlPlane × ℤ)
buffer_free size cp =
    if is_zero size || ltb_ℤ cp.total_buffer_size (cp.curr_buffer_size +ℤ size)
    then ok (cp, negsuc 0)
    else do
      assert (not (ltb_ℤ cp.total_buffer_size (cp.curr_buffer_size +ℤ size)))
      ok (record cp { curr_buffer_size = cp.curr_buffer_size +ℤ size }, pos 0)

-- The buffers that are left are between none and all.
pub record IsBalanced (cp : ControlPlane) : Type 0 where
  pub not_negative : pos 0 ≤ℤ cp.curr_buffer_size
  pub within_total : cp.curr_buffer_size ≤ℤ cp.total_buffer_size

at_least : (a b : ℤ) → b ≤ℤ a → ltb_ℤ a b ≡ false
at_least a b h = ground arith

positive : (n : ℕ) → 0 < n → is_zero (pos n) ≡ false
positive n h = ground arith

refused_alloc :
    (size : ℤ) (cp : ControlPlane)
    → ltb_ℤ cp.curr_buffer_size size ≡ true
    → buffer_alloc size cp ≡ ok (cp, pos 0)
unfolding buffer_alloc
refused_alloc size cp t = rw t

granted_alloc :
    (n : ℕ) (cp : ControlPlane)
    → ltb_ℤ cp.curr_buffer_size (pos n) ≡ false
    → 0 < n
    → buffer_alloc (pos n) cp
      ≡ ok (record cp { curr_buffer_size = cp.curr_buffer_size -ℤ pos n }, pos n)
unfolding buffer_alloc
granted_alloc n cp t h = rw t (ground arith)

not_less : (a b : ℤ) → ltb_ℤ a b ≡ false → b ≤ℤ a
not_less a b h = ground arith

less : (a b : ℤ) → ltb_ℤ a b ≡ true → a +ℤ pos 1 ≤ℤ b
unfolding ◌+ℤ◌
less a b h = ground arith

sub_add : (a b : ℤ) → (a -ℤ b) +ℤ b ≡ a
sub_add a b = omega (arith, +ℤ_parts, -ℤ_parts, eq_of_parts)

-- A request for a positive number of buffers is granted in full where that many are left, and
-- else refused with 0; no assertion fails, what is granted is taken from the account, and the
-- account stays balanced.
pub buffer_alloc-IsBalanced :
    (n : ℕ) (cp : ControlPlane)
    → IsBalanced cp
    → 0 < n
    → (cp' : ControlPlane) × (given : ℤ) × (buffer_alloc (pos n) cp ≡ ok (cp', given))
      × (given ≡ (if ltb_ℤ cp.curr_buffer_size (pos n) then pos 0 else pos n))
      × (cp'.curr_buffer_size +ℤ given ≡ cp.curr_buffer_size)
      × IsBalanced cp'
buffer_alloc-IsBalanced n cp b h = elim (Bool-cases (ltb_ℤ cp.curr_buffer_size (pos n))) [
  | inl t ↦ (cp, pos 0, refused_alloc (pos n) cp t, rw t, omega (arith, +ℤ_parts, eq_of_parts), b)
  | inr f ↦
      let enough = not_less cp.curr_buffer_size (pos n) f in
      (
        record cp { curr_buffer_size = cp.curr_buffer_size -ℤ pos n },
        pos n,
        granted_alloc n cp f h,
        rw f,
        sub_add cp.curr_buffer_size (pos n),
        record {
          not_negative = omega (arith, enough, -ℤ_parts);
          within_total = omega (arith, b.within_total, -ℤ_parts);
        },
      )
]

-- Buffers that were granted can be given back: the account is as before the request.
pub buffer_free-alloc :
    (n : ℕ) (cp : ControlPlane)
    → IsBalanced cp
    → 0 < n
    → pos n ≤ℤ cp.curr_buffer_size
    → (buffer_alloc (pos n) cp >>= λ r. buffer_free (pos n) (r.0)) ≡ ok (cp, pos 0)
unfolding buffer_free
buffer_free-alloc n cp b h enough =
    rw (granted_alloc n cp (at_least cp.curr_buffer_size (pos n) enough) h) (
      rw (sub_add cp.curr_buffer_size (pos n))
        (rw (at_least cp.total_buffer_size cp.curr_buffer_size (b.within_total), positive n h)))

-- Nothing or too much is being given back.
abbrev pub surplus : ℕ → ControlPlane → Bool
surplus n cp = is_zero (pos n) || ltb_ℤ cp.total_buffer_size (cp.curr_buffer_size +ℤ pos n)

surplus-false :
    (n : ℕ) (cp : ControlPlane)
    → surplus n cp ≡ false
    → ltb_ℤ cp.total_buffer_size (cp.curr_buffer_size +ℤ pos n) ≡ false
surplus-false n cp h = ground arith

-- A balanced account stays balanced when buffers come back, and no assertion fails: none at all,
-- and more than are out, are refused with -1 and no change, any other number is added.
pub buffer_free-IsBalanced :
    (n : ℕ) (cp : ControlPlane)
    → IsBalanced cp
    → (cp' : ControlPlane) × (buffer_free (pos n) cp
        ≡ ok (cp', if surplus n cp then negsuc 0 else pos 0))
      × (cp'.curr_buffer_size
          ≡ (if surplus n cp then cp.curr_buffer_size else cp.curr_buffer_size +ℤ pos n))
      × IsBalanced cp'
unfolding buffer_free
buffer_free-IsBalanced n cp b = elim (Bool-cases (surplus n cp)) [
  | inl t ↦ (cp, rw t, rw t, b)
  | inr f ↦
      let room = surplus-false n cp f in
      (
        record cp { curr_buffer_size = cp.curr_buffer_size +ℤ pos n },
        rw (f, room),
        rw f,
        record {
          not_negative = omega (arith, b.not_negative, +ℤ_parts);
          within_total = not_less cp.total_buffer_size (cp.curr_buffer_size +ℤ pos n) room;
        },
      )
]
