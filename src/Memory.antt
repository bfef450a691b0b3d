-- ===== src/Memory.antt =====
-- The allocator of physical frames: kernel/krust/src/memory.rs. A frame is the number of its first
-- byte. The entries of the boot loader's memory map are a list, and a loop over an array up to its
-- count is a recursion on the slots in use.
pub mod Allocate
pub mod Release
pub mod Places
pub mod Ranges
pub mod Taken
pub mod Run
pub mod Freed
pub mod Steps
pub mod Fresh
pub mod Frames
pub mod Usable
mod Tests
use vertex_os.Base.{
  ℕ, suc, zero, ◌+◌, ◌-◌, ◌*◌, ◌/◌, ◌%◌, Bool, true, false, ◌&&◌, Option, none, some, List, [], ◌∷◌,
  Result, ok, err, ◌==◌, ltb, leb, if◌then◌else◌, length, get_elem?, set, take, replicate, any,
  position, bit_and,
}
use vertex_os.Base.Bits.{ones}
use vertex_os.Ids.{u64_max, saturating_add}

abbrev pub frame_size : ℕ
frame_size = 4096

abbrev pub max_ranges : ℕ
max_ranges = 64

abbrev pub free_stack_capacity : ℕ
free_stack_capacity = 8192

abbrev pub max_frame_records : ℕ
max_frame_records = 16384

abbrev pub PhysicalFrame : Type 0
PhysicalFrame = ℕ

-- `PhysicalFrame::from_start`
unfoldable pub frame_from_start : ℕ → Option PhysicalFrame
frame_from_start start = if start % frame_size == 0 then some start else none

pub record FrameRange : Type 0 where
  pub start : ℕ
  pub next : ℕ
  pub end : ℕ

unfoldable pub empty_range : FrameRange
empty_range = record { start = 0; next = 0; end = 0 }

unfoldable pub new_range : ℕ → ℕ → FrameRange
new_range start end = record { start = start; next = start; end = end }

unfoldable pub frame_count : FrameRange → ℕ
frame_count range = (range.end - range.start) / frame_size

unfoldable pub range_contains : PhysicalFrame → FrameRange → Bool
range_contains frame range =
    if ltb u64_max (frame + frame_size)
    then false
    else leb range.start frame && leb (frame + frame_size) range.end

pub data FrameInitError : Type 0 where
  too_many_ranges no_usable_frames : FrameInitError

pub data FreeError : Type 0 where
  unaligned_frame outside_usable_ranges free_stack_full unallocated_frame wrong_owner : FreeError

pub data FrameOwnerKind : Type 0 where
  kernel page_table process_memory dma scratch : FrameOwnerKind

pub record FrameOwner : Type 0 where
  pub kind : FrameOwnerKind
  pub id : ℕ

-- `FrameOwner::scratch()`
abbrev pub scratch_owner : FrameOwner
scratch_owner = record { kind = scratch; id = 0 }

-- The kinds by number, for `==`.
abbrev pub kind_number : FrameOwnerKind → ℕ
kind_number kernel = 0
kind_number page_table = 1
kind_number process_memory = 2
kind_number dma = 3
kind_number scratch = 4

unfoldable pub owner_eq : FrameOwner → FrameOwner → Bool
owner_eq a b = kind_number a.kind == kind_number b.kind && a.id == b.id

pub record FrameRecord : Type 0 where
  pub frame : PhysicalFrame
  pub owner : FrameOwner

pub record FrameAllocator : Type 0 where
  pub ranges : List FrameRange
  pub range_count : ℕ
  pub next_range : ℕ
  pub free_stack : List PhysicalFrame
  pub free_stack_len : ℕ
  pub total_frames : ℕ
  pub allocated_frames : ℕ
  pub reclaimed_frames : ℕ
  pub high_water_frames : ℕ
  pub failed_allocations : ℕ
  pub records : List (Option FrameRecord)
  pub record_count : ℕ

-- `FrameAllocator::new()`
unfoldable pub new_allocator : FrameAllocator
unfolding empty_range
new_allocator = record {
  ranges = replicate max_ranges empty_range;
  range_count = 0;
  next_range = 0;
  free_stack = replicate free_stack_capacity 0;
  free_stack_len = 0;
  total_frames = 0;
  allocated_frames = 0;
  reclaimed_frames = 0;
  high_water_frames = 0;
  failed_allocations = 0;
  records = replicate max_frame_records none;
  record_count = 0;
}

-- `align_up` and `align_down` of memory.rs, on u64.
unfoldable pub align_up : ℕ → ℕ → ℕ
align_up value align = bit_and (saturating_add value (align - 1)) (ones 64 - (align - 1))

unfoldable pub align_down : ℕ → ℕ → ℕ
align_down value align = bit_and value (ones 64 - (align - 1))

-- An entry of the memory map.
pub record MemmapEntry : Type 0 where
  pub base : ℕ
  pub length : ℕ
  pub entry_type : ℕ

abbrev pub memmap_usable : ℕ
memmap_usable = 0

-- The resets at the top of `init_from_limine`.
unfoldable pub cleared : FrameAllocator → FrameAllocator
cleared a = record a {
  range_count = 0;
  next_range = 0;
  free_stack_len = 0;
  total_frames = 0;
  allocated_frames = 0;
  reclaimed_frames = 0;
  high_water_frames = 0;
  failed_allocations = 0;
  record_count = 0;
}

-- The range of an entry.
unfoldable pub entry_range : MemmapEntry → FrameRange
unfolding new_range align_up align_down
entry_range entry =
    new_range (align_up entry.base frame_size)
      (align_down (saturating_add entry.base entry.length) frame_size)

-- The entries that give a range.
unfoldable pub is_used : MemmapEntry → Bool
unfolding entry_range
is_used entry =
    entry.entry_type == memmap_usable && ltb (entry_range entry).start (entry_range entry).end

unfoldable pub push_range : FrameRange → FrameAllocator → FrameAllocator
unfolding frame_count
push_range range a = record a {
  total_frames = a.total_frames + frame_count range;
  ranges = set a.ranges a.range_count range;
  range_count = a.range_count + 1;
}

unfoldable pub add_entries :
    List MemmapEntry → FrameAllocator → Result FrameInitError FrameAllocator
unfolding is_used entry_range push_range
add_entries [] a = ok a
add_entries (entry ∷ entries) a = elim (is_used entry) [
  | false ↦ add_entries entries a
  | true ↦ elim (a.range_count == length a.ranges) [
    | true ↦ err too_many_ranges
    | false ↦ add_entries entries (push_range (entry_range entry) a)
  ]
]

-- On an error the program leaves the allocator as far as it is filled; the result here is the error
-- alone, since init_physical_allocator of kernel/krust/src/main.rs hands no allocator out then.
unfoldable pub init_from_limine :
    List MemmapEntry → FrameAllocator → Result FrameInitError FrameAllocator
unfolding cleared add_entries
init_from_limine entries a = elim (add_entries entries (cleared a)) [
  | err e ↦ err e
  | ok filled ↦ if filled.total_frames == 0 then err no_usable_frames else ok filled
]
