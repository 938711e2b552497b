-- ===== src/ControlPlane/Init.antt =====
-- nvfuse_control_plane_container_table_init() and nvfuse_control_plane_buffer_init().
use nvfuse.Prelude.{
  ℕ, zero, suc, ◌+◌, ◌-◌, ◌*◌, ◌/◌, ◌%◌, ◌^◌, ◌≤◌, ◌≡◌, ◌≢◌, refl, List, [], Bool, true, arith, ap,
  length, length-replicate, get_or, set, replicate, ◌==◌, if◌then◌else◌,
}
use nvfuse.Prelude.Int.{ℤ, pos, negsuc}
use nvfuse.Run.{Run, ok, fault, ◌>>◌, assert}
use nvfuse.ControlPlane.State.{
  unlocked, Reservation, zero_row, ControlPlane, dec32, count_free, IsValid,
}

-- DIV_UP(x, y) of include/nvfuse_types.h rounds up to a multiple.
abbrev pub div_up : ℕ → ℕ → ℕ
div_up x y = (x + y - 1) / y * y

-- The table as memset() leaves it, then the control plane's own row.
unfoldable pub fresh_table : ℕ → List Reservation
fresh_table n = set (replicate n zero_row) 0 (record zero_row { owner_core_id = 2 ^ 32 - 1 })

-- `allocated` says whether nvfuse_alloc_aligned_buffer() returned memory. Row 0 is written
-- unchecked: with no container the write is outside the table.
unfoldable pub container_table_init : ℕ → Bool → ControlPlane → Run (ControlPlane × ℤ)
unfolding fresh_table
container_table_init num_containers allocated cp =
    let cp1 : ControlPlane = record cp {
      reservation_table = [];
      reservation_table_size = div_up (12 * num_containers) 4096 % 2 ^ 32;
      last_alloc_container_id = 0;
      container_log = record { generation = 1; cur_log_file = 0; max_log_file = 2 };
      nr_containers = num_containers;
      free_containers = num_containers;
    } in
    if allocated
    then (if num_containers == 0 then fault else do
      let table = fresh_table num_containers
      let free = dec32 num_containers
      assert (free == count_free table)
      ok (record cp1 { reservation_table = table; free_containers = free }, pos 0))
    else ok (cp1, negsuc 0)

count_free-replicate : (n : ℕ) → count_free (replicate n zero_row) ≡ n
unfolding count_free
count_free-replicate zero = refl
count_free-replicate (suc n) = omega (arith, count_free-replicate n)

get_or-replicate : (n i : ℕ) → get_or (replicate n zero_row) i zero_row ≡ zero_row
get_or-replicate zero i = refl
get_or-replicate (suc n) zero = refl
get_or-replicate (suc n) (suc i) = get_or-replicate n i

count_free-fresh_table : (n : ℕ) → count_free (fresh_table (suc n)) ≡ n
unfolding count_free fresh_table
count_free-fresh_table n = omega (arith, count_free-replicate n)

status-fresh_table : (n i : ℕ) → (get_or (fresh_table (suc n)) i zero_row).status ≡ unlocked
unfolding fresh_table
status-fresh_table n zero = refl
status-fresh_table n (suc i) = ap Reservation.status (get_or-replicate n i)

length-fresh_table : (n : ℕ) → length (fresh_table (suc n)) ≡ suc n
unfolding fresh_table
length-fresh_table n = omega (arith, length-replicate n zero_row)

first_reserved : (n : ℕ) → (get_or (fresh_table (suc n)) 0 zero_row).owner_core_id ≢ 0
unfolding fresh_table
first_reserved n = omega arith

-- The state after the initialisation.
abbrev fresh_state : ℕ → ControlPlane → ControlPlane
fresh_state n cp = record cp {
  reservation_table = fresh_table n;
  reservation_table_size = div_up (12 * n) 4096 % 2 ^ 32;
  last_alloc_container_id = 0;
  container_log = record { generation = 1; cur_log_file = 0; max_log_file = 2 };
  nr_containers = n;
  free_containers = dec32 n;
}

-- Where there is memory for the table, nvfuse_control_plane_container_table_init() of at least one
-- container, and of so few that the size of the table, rounded up to blocks, is below 2 ^ 31, succeeds,
-- its own check of the free count included, in a valid state in which all containers but the first are
-- free. The size that the table is given is enough for its rows.
pub container_table_init-IsValid :
    (n : ℕ) (cp : ControlPlane)
    → 1 ≤ n
    → 12 * n + 4096 ≤ 2 ^ 31
    → (cp' : ControlPlane) × (container_table_init n true cp ≡ ok (cp', pos 0))
      × IsValid cp'
      × (cp'.free_containers ≡ n - 1)
      × (12 * n ≤ cp'.reservation_table_size)
unfolding container_table_init
container_table_init-IsValid zero cp h k = absurd (omega arith)
container_table_init-IsValid (suc m) cp h k = (
  fresh_state (suc m) cp,
  ground (arith, count_free-fresh_table m),
  record {
    some_container = omega arith;
    int_range = omega arith;
    rows = length-fresh_table m;
    reserved = first_reserved m;
    free_unlocked = λ i _ _. status-fresh_table m i;
    counted = omega (arith, count_free-fresh_table m);
    last_in = omega arith;
  },
  omega arith,
  omega arith,
)
