-- ===== src/ControlPlane/State.antt =====
-- The state of the control plane: `struct container_reservation` (include/nvfuse_ipc_ring.h) and the
-- container part of `struct control_plane_context` (include/nvfuse_control_plane.h). An `s32` that is
-- only counted up and down and compared for equality is its two's complement bit pattern, a number
-- below 2 ^ 32; the buffer sizes, which the code orders, are integers.
use nvfuse.Prelude.{
  ℕ, zero, suc, ◌+◌, ◌-◌, ◌%◌, ◌^◌, ◌≤◌, ◌<◌, ◌≡◌, ◌≢◌, inl, inr, List, [], ◌∷◌, arith, length,
  get_or, set, length-set, get_or-set_self, get_or-set_ne, ◌==◌, if◌then◌else◌, eq-cases,
}
use nvfuse.Prelude.Int.{ℤ}

-- enum reservation_status
abbrev pub unlocked : ℕ
unlocked = 0

abbrev pub acquired : ℕ
acquired = 1

abbrev pub write_locked : ℕ
write_locked = 2

abbrev pub read_locked : ℕ
read_locked = 3

-- struct container_reservation
pub record Reservation : Type 0 where
  pub owner_core_id : ℕ
  pub status : ℕ
  pub ref_count : ℕ

-- What memset() leaves in a row. It also stands for a row outside the table, which is never read:
-- each access is guarded, or in range by the invariant.
abbrev pub zero_row : Reservation
zero_row = record { owner_core_id = 0; status = 0; ref_count = 0 }

-- The generation and the file numbers with which a table is logged.
pub record Cursor : Type 0 where
  pub generation : ℕ
  pub cur_log_file : ℕ
  pub max_log_file : ℕ

-- struct control_plane_context
pub record ControlPlane : Type 0 where
  pub reservation_table : List Reservation
  pub reservation_table_size : ℕ
  pub nr_containers : ℕ
  pub free_containers : ℕ
  pub last_alloc_container_id : ℕ
  pub container_log : Cursor
  pub total_buffer_size : ℤ
  pub curr_buffer_size : ℤ

-- `x--` and `x++` on an s32.
abbrev pub dec32 : ℕ → ℕ
dec32 x = (x + (2 ^ 32 - 1)) % 2 ^ 32

abbrev pub inc32 : ℕ → ℕ
inc32 x = (x + 1) % 2 ^ 32

abbrev pub row : ControlPlane → ℕ → Reservation
row cp i = get_or cp.reservation_table i zero_row

abbrev pub set_row : ControlPlane → ℕ → Reservation → ControlPlane
set_row cp i r = record cp { reservation_table = set cp.reservation_table i r }

-- How many rows have no owner.
abbrev pub unowned : Reservation → ℕ
unowned r = if r.owner_core_id == 0 then 1 else 0

unfoldable pub count_free : List Reservation → ℕ
count_free [] = 0
count_free (r ∷ t) = unowned r + count_free t

-- The table has a row for each container, the first is the control plane's own, the rows without
-- an owner are unlocked, and `free_containers` is their number.
pub record IsValid (cp : ControlPlane) : Type 0 where
  pub some_container : 1 ≤ cp.nr_containers
  pub int_range : cp.nr_containers < 2 ^ 31
  pub rows : length cp.reservation_table ≡ cp.nr_containers
  pub reserved : (row cp 0).owner_core_id ≢ 0
  pub free_unlocked :
      (i : ℕ) → i < cp.nr_containers → (row cp i).owner_core_id ≡ 0 → (row cp i).status ≡ unlocked
  pub counted : cp.free_containers ≡ count_free cp.reservation_table
  pub last_in : cp.last_alloc_container_id < cp.nr_containers

pub count_free-le-length : (t : List Reservation) → count_free t ≤ length t
unfolding count_free
count_free-le-length [] = omega arith
count_free-le-length (r ∷ t) = ground (arith, count_free-le-length t)

-- Writing a row moves the count by that row alone.
pub count_free-set :
    (t : List Reservation) (i : ℕ) (r : Reservation)
    → i < length t
    → count_free (set t i r) + unowned (get_or t i zero_row) ≡ count_free t + unowned r
unfolding count_free
count_free-set [] i r h = absurd (omega arith)
count_free-set (x ∷ t) zero r h = omega arith
count_free-set (x ∷ t) (suc i) r h = omega (arith, count_free-set t i r (omega arith))

-- A positive count comes from a row.
pub count_free-witness :
    (t : List Reservation)
    → 0 < count_free t
    → (i : ℕ) × (i < length t) × ((get_or t i zero_row).owner_core_id ≡ 0)
unfolding count_free
count_free-witness [] h = absurd (omega arith)
count_free-witness (r ∷ t) h = elim (eq-cases r.owner_core_id 0) [
  | inl e ↦ (0, omega arith, e.1)
  | inr ne ↦ let (i, hi, e) = count_free-witness t (ground arith) in (suc i, omega arith, e)
]

pub count_free_zero :
    (t : List Reservation) (i : ℕ)
    → i < length t
    → count_free t ≡ 0
    → (get_or t i zero_row).owner_core_id ≢ 0
unfolding count_free
count_free_zero [] i h e = absurd (omega arith)
count_free_zero (r ∷ t) zero h e = ground arith
count_free_zero (r ∷ t) (suc i) h e = count_free_zero t i (omega arith) (ground arith)

-- A valid state stays valid when a row other than the first is written, if the new row is unlocked
-- where it has no owner, and the count follows.
pub set-IsValid :
    {cp : ControlPlane} (i : ℕ) (r : Reservation) (free last : ℕ)
    → IsValid cp
    → i ≢ 0
    → i < cp.nr_containers
    → (r.owner_core_id ≡ 0 → r.status ≡ unlocked)
    → free + unowned (row cp i) ≡ cp.free_containers + unowned r
    → last < cp.nr_containers
    → IsValid (record cp {
      reservation_table = set cp.reservation_table i r;
      free_containers = free;
      last_alloc_container_id = last;
    })
set-IsValid {cp} i r free last v ne hi un count hl = record {
  some_container = v.some_container;
  int_range = v.int_range;
  rows = rw (length-set cp.reservation_table i r) (v.rows);
  reserved = rw (get_or-set_ne cp.reservation_table i 0 r zero_row ne) (v.reserved);
  free_unlocked = λ j hj. elim (eq-cases i j) [
    | inl e ↦
        rw (← e.1, get_or-set_self cp.reservation_table i r zero_row (omega (arith, v.rows))) un
    | inr n ↦ rw (get_or-set_ne cp.reservation_table i j r zero_row n.1) (v.free_unlocked j hj)
  ];
  counted =
      omega
        (arith, v.counted, v.rows, count_free-set cp.reservation_table i r (omega (arith, v.rows)));
  last_in = hl;
}

pub free-lt : (cp : ControlPlane) → IsValid cp → cp.free_containers < 2 ^ 31
free-lt cp v =
    omega (arith, v.counted, v.rows, v.int_range, count_free-le-length cp.reservation_table)

-- Neither does the free count wrap when a container is taken, nor when one comes back.
pub dec32-add : (x : ℕ) → x ≢ 0 → x < 2 ^ 32 → dec32 x + 1 ≡ x
dec32-add x h k = omega arith

pub unowned-zero : (r : Reservation) → r.owner_core_id ≡ 0 → unowned r ≡ 1
unowned-zero r e = ground arith

pub unowned-ne : (r : Reservation) → r.owner_core_id ≢ 0 → unowned r ≡ 0
unowned-ne r e = ground arith
