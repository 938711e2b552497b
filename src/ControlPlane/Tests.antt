-- ===== src/ControlPlane/Tests.antt =====
-- The control plane's theorems on small states, and runs of its functions.
use nvfuse.ControlPlane.Init.{container_table_init, container_table_init-IsValid}
use nvfuse.ControlPlane.Release.Validity.{container_release_by_coreid-IsValid}
use nvfuse.Prelude.{
  ℕ, ◌+◌, ◌≡◌, refl, ◌⊎◌, true, arith, List, [], ◌∷◌, replicate, map, if◌then◌else◌, ◌≤◌,
}
use nvfuse.Prelude.Int.{ℤ, pos, ◌+ℤ◌, ltb_ℤ}
use nvfuse.Run.{ok, hang}
use nvfuse.Bytes.{value_of}
use nvfuse.ControlPlane.State.{ControlPlane, row, IsValid}
use nvfuse.ControlPlane.Samples.{
  Disk, put_block, disk, no_files, own, first_row, free_row, four, four-IsValid, three,
  three-IsValid,
}
use nvfuse.ControlPlane.Log.Defs.{Memory, get_generation, load_container_table}
use nvfuse.ControlPlane.Log.Load.{load_container_table-first}
use nvfuse.ControlPlane.Alloc.Defs.{container_new_alloc, container_alloc, alloc_new}
use nvfuse.ControlPlane.Alloc.New.{Granted, container_alloc-new}
use nvfuse.ControlPlane.Alloc.Owned.{Regranted, Refused, alloc_owned_cases}
use nvfuse.ControlPlane.Release.Defs.{container_release_by_coreid}
use nvfuse.ControlPlane.Release.ByCore.{
  release_if_owned, idle, free_after, container_release_by_coreid-idle,
}
use nvfuse.ControlPlane.Reserve.Defs.{
  resv_read_lock, resv_write_lock, reservation_acquire, reservation_release,
}
use nvfuse.ControlPlane.Reserve.Refine.{
  writer, free, answer, spec_acquire, spec_release, reservation_acquire_refines,
  reservation_release_refines,
}
use nvfuse.ControlPlane.Reserve.Starve.{acquire_unowned-hang}
use nvfuse.ControlPlane.Buffer.{buffer_alloc, IsBalanced, buffer_alloc-IsBalanced}

container_alloc_example :
    (id : ℕ) × (cp' : ControlPlane) × (fs' : Disk) × (container_alloc disk 9 container_new_alloc 0
        four no_files
      ≡ ok (cp', fs', id))
    × ((row four id).owner_core_id ≡ 0)
    × Granted four cp' id 9 0
    × (cp'.free_containers + 1 ≡ 1)
    × IsValid cp'
container_alloc_example =
    container_alloc-new disk four no_files 9 0 four-IsValid (omega arith) (omega arith)

alloc_owned_example : Regranted four 7 1 ⊎ Refused four 7 1
alloc_owned_example = alloc_owned_cases four 7 1 four-IsValid (omega arith) (omega arith)

idle_rows : idle 7 true (free_row ∷ own ∷ []) ≡ true
unfolding idle
idle_rows = refl

container_release_by_coreid-idle_example : container_release_by_coreid 7 true three ≡ (
  record three {
    reservation_table = first_row ∷ map (release_if_owned 7 true) (free_row ∷ own ∷ []);
    free_containers = free_after 7 true (free_row ∷ own ∷ []) 1;
  },
  pos 0,
)
container_release_by_coreid-idle_example =
    container_release_by_coreid-idle 7 true three first_row (free_row ∷ own ∷ []) three-IsValid refl
      idle_rows

reservation_acquire_example :
    reservation_acquire 2 resv_read_lock four ≡ answer four 2 7 (spec_acquire resv_read_lock free)
reservation_acquire_example =
    reservation_acquire_refines 2 7 resv_read_lock free four (omega arith) refl (omega arith)

reservation_release_example : reservation_release 3 four ≡ answer four 3 7 (spec_release writer)
reservation_release_example =
    reservation_release_refines 3 7 writer four (omega arith) refl (omega arith)

acquire_unowned_example :
    (cp' : ControlPlane) × (reservation_acquire 1 resv_write_lock four ≡ ok (cp', pos 0))
    × (cp'.free_containers ≡ 1)
    × (alloc_new 9 0 cp' ≡ hang)
acquire_unowned_example = acquire_unowned-hang four 1 four-IsValid refl 9 0 (omega arith) refl

four-IsBalanced : IsBalanced four
four-IsBalanced = record { not_negative = ground arith; within_total = ground arith }

buffer_alloc_example :
    (cp' : ControlPlane) × (given : ℤ) × (buffer_alloc (pos 25) four ≡ ok (cp', given))
    × (given ≡ (if ltb_ℤ (pos 60) (pos 25) then pos 0 else pos 25))
    × (cp'.curr_buffer_size +ℤ given ≡ pos 60)
    × IsBalanced cp'
buffer_alloc_example = buffer_alloc-IsBalanced 25 four four-IsBalanced (omega arith)

-- Generation 2 in file 0 and generation 1 in file 1, as two stores leave them and a third.
abbrev block : ℕ → List ℕ
block g = g ∷ replicate 7 0

abbrev logged : Disk
logged = put_block (put_block no_files 1 (block 2) 0) 0 (block 3) 0

abbrev memory : Memory
memory = record {
  table = replicate 8 0;
  cursor = record { generation = 1; cur_log_file = 0; max_log_file = 2 };
}

load_container_table_example : load_container_table disk 8 memory logged ≡ (memory, logged)
unfolding get_generation value_of
load_container_table_example =
    load_container_table-first disk 8 0 1 memory logged logged logged [] (block 3) (block 2) refl
      refl refl refl refl refl (omega arith) (omega arith)

container_table_init_example :
    (cp' : ControlPlane) × (container_table_init 4 true three ≡ ok (cp', pos 0))
    × IsValid cp'
    × (cp'.free_containers ≡ 3)
    × (48 ≤ cp'.reservation_table_size)
container_table_init_example = container_table_init-IsValid 4 three (omega arith) (omega arith)

container_release_by_coreid-IsValid_example : IsValid (container_release_by_coreid 7 true three).0
container_release_by_coreid-IsValid_example =
    container_release_by_coreid-IsValid 7 true three three-IsValid (omega arith)
