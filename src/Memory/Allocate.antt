-- ===== src/Memory/Allocate.antt =====
-- How frames are handed out: allocate, allocate_owned and allocate_contiguous_owned of
-- kernel/krust/src/memory.rs. A request that fails is counted.
use vertex_os.Base.{
  ℕ, suc, zero, ◌+◌, ◌-◌, ◌*◌, Bool, true, false, Option, none, some, ◌==◌, ltb, leb, if◌then◌else◌,
  length, get_elem?, set,
}
use vertex_os.Ids.{u64_max, saturating_add}
use vertex_os.Memory.{
  frame_size, PhysicalFrame, FrameRange, FrameOwner, scratch_owner, FrameAllocator,
}

unfoldable pub record_allocated : PhysicalFrame → FrameOwner → FrameAllocator → FrameAllocator
record_allocated frame owner a = record a {
  records = set a.records a.record_count (some (record { frame = frame; owner = owner }));
  record_count = a.record_count + 1;
}

unfoldable pub update_high_water : FrameAllocator → FrameAllocator
update_high_water a = record a {
  high_water_frames =
      if ltb a.high_water_frames a.allocated_frames
      then a.allocated_frames
      else a.high_water_frames;
}

-- A request that fails.
unfoldable pub count_failure : FrameAllocator → FrameAllocator
count_failure a = record a { failed_allocations = saturating_add a.failed_allocations 1 }

-- From the top of the stack of recycled frames.
unfoldable pub pop_frame : PhysicalFrame → FrameOwner → FrameAllocator → FrameAllocator
unfolding record_allocated update_high_water
pop_frame frame owner a = update_high_water (
    record_allocated frame owner (record a {
      free_stack_len = a.free_stack_len - 1;
      allocated_frames = a.allocated_frames + 1;
    }))

-- From the next range, of which one frame goes.
unfoldable pub bump_frame : FrameRange → FrameOwner → FrameAllocator → FrameAllocator
unfolding record_allocated update_high_water
bump_frame range owner a = update_high_water (
    record_allocated range.next owner (record a {
      ranges = set a.ranges a.next_range (record range { next = range.next + frame_size });
      allocated_frames = a.allocated_frames + 1;
    }))

unfoldable pub skip_range : FrameAllocator → FrameAllocator
skip_range a = record a { next_range = a.next_range + 1 }

-- The loop over the ranges, by the number of those that are left.
unfoldable pub from_ranges : ℕ → FrameOwner → FrameAllocator → Option PhysicalFrame × FrameAllocator
unfolding bump_frame skip_range count_failure
from_ranges zero owner a = (none, count_failure a)
from_ranges (suc left) owner a = elim (get_elem? a.ranges a.next_range) [
  | none ↦ (none, count_failure a)
  | some range ↦ elim (ltb range.next range.end) [
    | true ↦ (some range.next, bump_frame range owner a)
    | false ↦ from_ranges left owner (skip_range a)
  ]
]

unfoldable pub from_stack : FrameOwner → FrameAllocator → Option PhysicalFrame × FrameAllocator
unfolding pop_frame count_failure
from_stack owner a = elim (get_elem? a.free_stack (a.free_stack_len - 1)) [
  | none ↦ (none, count_failure a)
  | some frame ↦ (some frame, pop_frame frame owner a)
]

unfoldable pub allocate_owned : FrameOwner → FrameAllocator → Option PhysicalFrame × FrameAllocator
unfolding from_stack from_ranges count_failure
allocate_owned owner a = elim (a.record_count == length a.records) [
  | true ↦ (none, count_failure a)
  | false ↦ elim (ltb 0 a.free_stack_len) [
    | true ↦ from_stack owner a
    | false ↦ from_ranges (a.range_count - a.next_range) owner a
  ]
]

unfoldable pub allocate : FrameAllocator → Option PhysicalFrame × FrameAllocator
unfolding allocate_owned
allocate a = allocate_owned scratch_owner a

-- The loop that records the frames of a run, by the number of those that are left.
unfoldable pub record_run : ℕ → ℕ → PhysicalFrame → FrameOwner → FrameAllocator → FrameAllocator
unfolding record_allocated
record_run zero index first owner a = a
record_run (suc left) index first owner a =
    record_run left (suc index) first owner (record_allocated (first + index * frame_size) owner a)

-- From the next range, of which a run of frames goes.
unfoldable pub bump_run : ℕ → FrameRange → FrameOwner → FrameAllocator → FrameAllocator
unfolding record_run update_high_water
bump_run count range owner a = update_high_water (
    record_run count 0 range.next owner (record a {
      ranges = set a.ranges a.next_range (record range { next = range.next + count * frame_size });
      allocated_frames = a.allocated_frames + count;
    }))

-- The sizes that `checked_mul` and `checked_add` refuse.
abbrev pub overflows : ℕ → FrameRange → Bool
overflows count range =
    if ltb u64_max (count * frame_size) then true else ltb u64_max (range.next + count * frame_size)

-- The loop over the ranges, by the number of those that are left.
unfoldable pub run_from_ranges :
    ℕ → ℕ → FrameOwner → FrameAllocator → Option PhysicalFrame × FrameAllocator
unfolding bump_run skip_range count_failure
run_from_ranges zero count owner a = (none, count_failure a)
run_from_ranges (suc left) count owner a = elim (get_elem? a.ranges a.next_range) [
  | none ↦ (none, count_failure a)
  | some range ↦ elim (overflows count range) [
    | true ↦ (none, count_failure a)
    | false ↦ elim (leb (range.next + count * frame_size) range.end) [
      | true ↦ (some range.next, bump_run count range owner a)
      | false ↦ run_from_ranges left count owner (skip_range a)
    ]
  ]
]

-- A `usize` has 64 bits here, so that `usize::try_from` always succeeds.
unfoldable pub allocate_contiguous_owned :
    ℕ → FrameOwner → FrameAllocator → Option PhysicalFrame × FrameAllocator
unfolding run_from_ranges count_failure
allocate_contiguous_owned count owner a = elim (count == 0) [
  | true ↦ (none, count_failure a)
  | false ↦ elim (ltb (length a.records - a.record_count) count) [
    | true ↦ (none, count_failure a)
    | false ↦ run_from_ranges (a.range_count - a.next_range) count owner a
  ]
]
