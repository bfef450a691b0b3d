-- ===== src/Memory/Places.antt =====
-- Where a frame is: in the ledger of allocated frames, on the stack of recycled ones, or in the part
-- of a range that was not handed out yet (kernel/krust/src/memory.rs).
use vertex_os.Base.{
  ℕ, zero, suc, ◌+◌, ◌%◌, ◌≤◌, ◌≡◌, ◌&&◌, Option, none, some, List, [], ◌∷◌, ◌++◌, ◌==◌, ltb, leb,
  if◌then◌else◌, length, take, All,
}
use vertex_os.Base.Sums.{sum}
use vertex_os.Memory.{
  frame_size, FrameOwner, max_frame_records, free_stack_capacity, PhysicalFrame, FrameRange,
  FrameRecord, FrameAllocator,
}
use vertex_os.Memory.Release.{ledger}

-- 1 for the frame itself.
abbrev pub is_frame : PhysicalFrame → PhysicalFrame → ℕ
is_frame frame other = if other == frame then 1 else 0

abbrev pub in_record : PhysicalFrame → Option FrameRecord → ℕ
in_record frame none = 0
in_record frame (some entry) = is_frame frame entry.frame

-- 1 for a frame of the part of a range that was not handed out.
abbrev pub between : PhysicalFrame → ℕ → ℕ → ℕ
between frame next end =
    if frame % frame_size == 0 && (leb next frame && ltb frame end) then 1 else 0

abbrev pub in_range : PhysicalFrame → FrameRange → ℕ
in_range frame range = between frame range.next range.end

abbrev pub held : PhysicalFrame → FrameAllocator → ℕ
held frame a = sum (in_record frame) (ledger a)

abbrev pub stacked : PhysicalFrame → FrameAllocator → ℕ
stacked frame a = sum (is_frame frame) (take a.free_stack_len a.free_stack)

abbrev pub unused : PhysicalFrame → FrameAllocator → ℕ
unused frame a = sum (in_range frame) (take a.range_count a.ranges)

-- The number of places in which the frame is.
abbrev pub places : PhysicalFrame → FrameAllocator → ℕ
places frame a = held frame a + stacked frame a + unused frame a

-- Whole frames, in order.
abbrev pub IsFrameRange : FrameRange → Type 0
IsFrameRange range =
    (range.next % frame_size ≡ 0)
    × (range.end % frame_size ≡ 0)
    × (range.start ≤ range.next)
    × (range.next ≤ range.end)

-- The counts are within their arrays, the ranges hold whole frames, and the number of allocated
-- frames is that of the records.
pub record IsAllocator (a : FrameAllocator) : Type 0 where
  pub records : length a.records ≡ max_frame_records
  pub record_within : a.record_count ≤ max_frame_records
  pub stack : length a.free_stack ≡ free_stack_capacity
  pub stack_within : a.free_stack_len ≤ free_stack_capacity
  pub range_within : a.range_count ≤ length a.ranges
  pub whole : All IsFrameRange (take a.range_count a.ranges)
  pub counted : a.allocated_frames ≡ a.record_count
  pub high : a.allocated_frames ≤ a.high_water_frames

-- What a request that succeeds leaves: every frame is where it was or moved to the ledger.
pub record Conserves (a b : FrameAllocator) : Type 0 where
  pub valid : IsAllocator b
  pub same_places : (frame : PhysicalFrame) → places frame b ≡ places frame a

-- The records of a run of `n` frames from the first.
abbrev pub run_records : ℕ → PhysicalFrame → FrameOwner → List (Option FrameRecord)
run_records zero first owner = []
run_records (suc n) first owner =
    some (record { frame = first; owner = owner }) ∷ run_records n (first + frame_size) owner

-- How a request for a run of `n` frames ends.
pub data AllocCase (n : ℕ) (owner : FrameOwner) (a : FrameAllocator)
    : Option PhysicalFrame × FrameAllocator → Type 0 where
  taken :
      (first : PhysicalFrame) (b : FrameAllocator)
      → Conserves a b
      → ledger b ≡ ledger a ++ run_records n first owner
      → AllocCase n owner a (some first, b)
  refused :
      (b : FrameAllocator) → Conserves a b → ledger b ≡ ledger a → AllocCase n owner a (none, b)
