-- ===== src/Memory/Tests.antt =====
-- A machine with one usable range of three frames.
use vertex_os.Base.{
  ℕ, ◌+◌, ◌*◌, ◌≡◌, ◌≤◌, refl, Option, none, some, List, [], ◌∷◌, Result, ok, err, length,
  length-replicate, replicate, arith,
}
use vertex_os.Memory.{
  frame_size, max_frame_records, free_stack_capacity, PhysicalFrame, range_contains,
  unallocated_frame, FreeError, FrameInitError, FrameOwner, kernel, owner_eq, FrameRecord,
  FrameAllocator, new_allocator, empty_range, new_range, frame_count, align_up, align_down,
  MemmapEntry, cleared, entry_range, is_used, push_range, add_entries, init_from_limine,
}
use vertex_os.Memory.Allocate.{
  record_allocated, update_high_water, bump_frame, from_ranges, allocate_owned, record_run,
  bump_run, run_from_ranges, allocate_contiguous_owned,
}
use vertex_os.Memory.Release.{
  contains, records_frame, record_index, owner_of, remove_record, is_not_owner, recycle,
  find_record, free_with_owner,
}
use vertex_os.Memory.Places.{places, IsAllocator, Conserves}
use vertex_os.Memory.Steps.{here, next, allocates, allocates_run, Reach-Conserves}
use vertex_os.Memory.Fresh.{
  allocate_owned_fresh, allocate_contiguous_owned_fresh, free_with_owner_twice,
}
use vertex_os.Memory.Usable.{usable_ranges, init_from_limine-IsAllocator}

abbrev boot : FrameAllocator
boot = record {
  ranges = record { start = 4096; next = 4096; end = 16384 } ∷ [];
  range_count = 1;
  next_range = 0;
  free_stack = replicate free_stack_capacity 0;
  free_stack_len = 0;
  total_frames = 3;
  allocated_frames = 0;
  reclaimed_frames = 0;
  high_water_frames = 0;
  failed_allocations = 0;
  records = replicate max_frame_records none;
  record_count = 0;
}

abbrev kernel_owner : FrameOwner
kernel_owner = record { kind = kernel; id = 1 }

boot-IsAllocator : IsAllocator boot
boot-IsAllocator = record {
  records = length-replicate {A = Option FrameRecord} max_frame_records none;
  record_within = omega arith;
  stack = length-replicate {A = ℕ} free_stack_capacity 0;
  stack_within = omega arith;
  range_within = omega arith;
  whole = ((omega arith, omega arith, omega arith, omega arith), tt);
  counted = refl;
  high = omega arith;
}

-- One frame allocated.
one_taken : FrameAllocator
unfolding allocate_owned from_ranges bump_frame record_allocated update_high_water
one_taken = (allocate_owned kernel_owner boot).1

one_taken_first : allocate_owned kernel_owner boot ≡ (some 4096, one_taken)
unfolding one_taken
one_taken_first = refl

allocate_owned_fresh_example :
    (owner_of 4096 boot ≡ none) × (owner_of 4096 one_taken ≡ some kernel_owner)
allocate_owned_fresh_example =
    allocate_owned_fresh kernel_owner 4096 boot one_taken boot-IsAllocator (omega arith)
      one_taken_first

run_taken : FrameAllocator
unfolding allocate_contiguous_owned run_from_ranges bump_run record_run record_allocated
    update_high_water
run_taken = (allocate_contiguous_owned 2 kernel_owner boot).1

run_taken_first : allocate_contiguous_owned 2 kernel_owner boot ≡ (some 4096, run_taken)
unfolding run_taken
run_taken_first = refl

allocate_contiguous_owned_fresh_example : owner_of (4096 + 1 * frame_size) boot ≡ none
allocate_contiguous_owned_fresh_example =
    allocate_contiguous_owned_fresh 2 1 kernel_owner 4096 boot run_taken boot-IsAllocator
      (omega arith) (omega arith) run_taken_first

Reach-Conserves_example : Conserves boot (allocate_contiguous_owned 2 kernel_owner one_taken).1
unfolding one_taken
Reach-Conserves_example =
    Reach-Conserves boot-IsAllocator
      (next (next here (allocates kernel_owner)) (allocates_run 2 kernel_owner))

one_taken-IsAllocator : IsAllocator one_taken
unfolding one_taken
one_taken-IsAllocator =
    (Reach-Conserves boot-IsAllocator (next here (allocates kernel_owner))).valid

one_taken_once : places 4096 one_taken ≤ 1
unfolding one_taken
one_taken_once = omega arith

result_of : Result FreeError FrameAllocator → FrameAllocator
result_of (ok a) = a
result_of (err e) = boot

given_back : FrameAllocator
unfolding one_taken result_of free_with_owner find_record contains range_contains record_index
    records_frame is_not_owner owner_eq recycle remove_record
given_back = result_of (free_with_owner 4096 (some kernel_owner) one_taken)

given_back_freed : free_with_owner 4096 (some kernel_owner) one_taken ≡ ok given_back
unfolding given_back
given_back_freed = refl

free_with_owner_twice_example :
    (owner_of 4096 given_back ≡ none)
    × (free_with_owner 4096 none given_back ≡ err unallocated_frame)
free_with_owner_twice_example =
    free_with_owner_twice 4096 (some kernel_owner) none one_taken given_back one_taken-IsAllocator
      one_taken_once given_back_freed

-- A map with a reserved entry and a usable one that does not begin at a frame.
abbrev memory_map : List MemmapEntry
memory_map =
    record { base = 0; length = 4096; entry_type = 1 }
    ∷ record { base = 5000; length = 20000; entry_type = 0 }
    ∷ []

result_of_init : Result FrameInitError FrameAllocator → FrameAllocator
result_of_init (ok a) = a
result_of_init (err e) = boot

started : FrameAllocator
unfolding result_of_init init_from_limine add_entries cleared is_used entry_range new_range align_up
    align_down push_range frame_count new_allocator empty_range
started = result_of_init (init_from_limine memory_map new_allocator)

started_init : init_from_limine memory_map new_allocator ≡ ok started
unfolding started
started_init = refl

new_allocator_records : length new_allocator.records ≡ max_frame_records
unfolding new_allocator
new_allocator_records = length-replicate {A = Option FrameRecord} max_frame_records none

new_allocator_stack : length new_allocator.free_stack ≡ free_stack_capacity
unfolding new_allocator
new_allocator_stack = length-replicate {A = ℕ} free_stack_capacity 0

init_from_limine-IsAllocator_example :
    IsAllocator started
    × ((frame : PhysicalFrame) → places frame started ≡ usable_ranges frame memory_map)
init_from_limine-IsAllocator_example =
    init_from_limine-IsAllocator memory_map new_allocator started new_allocator_records
      new_allocator_stack started_init
