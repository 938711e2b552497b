-- ===== src/ControlPlane/Samples.antt =====
-- Small states of the control plane, and a disk, for the tests.
use nvfuse.Prelude.{
  ℕ, zero, suc, ◌-◌, ◌^◌, ◌<◌, ◌≡◌, refl, Bool, true, false, Option, none, some, ◌&&◌, ◌||◌, arith,
  List, [], ◌∷◌, ◌==◌, if◌then◌else◌,
}
use nvfuse.Prelude.Int.{pos}
use nvfuse.ControlPlane.State.{
  unlocked, write_locked, Reservation, ControlPlane, row, count_free, IsValid,
}
use nvfuse.ControlPlane.Log.Storage.{Storage}

-- A disk: the block of a file at an offset. A file is there from its first block on.
abbrev pub Disk : Type 0
Disk = ℕ → ℕ → Option (List ℕ)

abbrev pub exists : Option (List ℕ) → Bool
exists none = false
exists (some _) = true

abbrev pub put_block : Disk → ℕ → List ℕ → ℕ → Disk
put_block d fd buf offset = λ f o. if f == fd && o == offset then some buf else d f o

abbrev pub disk : Storage
disk = record {
  Files = Disk;
  alloc_buffer = λ _. some [];
  open_file = λ d n create. (d, if create || exists (d n 0) then some n else none);
  write_file = λ d fd buf offset. (put_block d fd buf offset, true);
  read_file = λ d fd offset. d fd offset;
  close_file = λ d _. d;
  check_flush_dirty = λ d. d;
}

abbrev pub no_files : Disk
no_files = λ _ _. none

-- The control plane's own container, a free one, and two of core 7, of which one is in use.
abbrev pub own : Reservation
own = record { owner_core_id = 7; status = unlocked; ref_count = 0 }

abbrev pub in_use : Reservation
in_use = record { owner_core_id = 7; status = write_locked; ref_count = 1 }

abbrev pub first_row : Reservation
first_row = record { owner_core_id = 2 ^ 32 - 1; status = unlocked; ref_count = 0 }

abbrev pub free_row : Reservation
free_row = record { owner_core_id = 0; status = unlocked; ref_count = 0 }

abbrev pub four : ControlPlane
four = record {
  reservation_table = first_row ∷ free_row ∷ own ∷ in_use ∷ [];
  reservation_table_size = 4096;
  nr_containers = 4;
  free_containers = 1;
  last_alloc_container_id = 2;
  container_log = record { generation = 1; cur_log_file = 0; max_log_file = 2 };
  total_buffer_size = pos 100;
  curr_buffer_size = pos 60;
}

four-unlocked : (i : ℕ) → i < 4 → (row four i).owner_core_id ≡ 0 → (row four i).status ≡ unlocked
four-unlocked zero h o = refl
four-unlocked (suc zero) h o = refl
four-unlocked (suc (suc zero)) h o = refl
four-unlocked (suc (suc (suc zero))) h o = absurd (omega arith)
four-unlocked (suc (suc (suc (suc i)))) h o = absurd (omega arith)

pub four-IsValid : IsValid four
unfolding count_free
four-IsValid = record {
  some_container = omega arith;
  int_range = omega arith;
  rows = refl;
  reserved = omega arith;
  free_unlocked = four-unlocked;
  counted = refl;
  last_in = omega arith;
}

-- The same table without the container in use.
abbrev pub three : ControlPlane
three = record four { reservation_table = first_row ∷ free_row ∷ own ∷ []; nr_containers = 3 }

three-unlocked : (i : ℕ) → i < 3 → (row three i).owner_core_id ≡ 0 → (row three i).status ≡ unlocked
three-unlocked zero h o = refl
three-unlocked (suc zero) h o = refl
three-unlocked (suc (suc zero)) h o = refl
three-unlocked (suc (suc (suc i))) h o = absurd (omega arith)

pub three-IsValid : IsValid three
unfolding count_free
three-IsValid = record {
  some_container = omega arith;
  int_range = omega arith;
  rows = refl;
  reserved = omega arith;
  free_unlocked = three-unlocked;
  counted = refl;
  last_in = omega arith;
}
