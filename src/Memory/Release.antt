-- ===== src/Memory/Release.antt =====
-- How frames come back and whose they are: free, free_owned, set_owner, owner_of and stats of
-- kernel/krust/src/memory.rs. A call that is refused changes nothing.
use vertex_os.Base.{
  ℕ, suc, ◌+◌, ◌-◌, ◌%◌, Bool, true, false, not, Option, none, some, List, [], ◌∷◌, Result, ok, err,
  ◌==◌, if◌then◌else◌, length, get_elem?, set, take, any, position,
}
use vertex_os.Ids.{saturating_add}
use vertex_os.Memory.{
  frame_size, PhysicalFrame, range_contains, FreeError, unaligned_frame, outside_usable_ranges,
  free_stack_full, unallocated_frame, wrong_owner, FrameOwner, FrameOwnerKind, kind_number,
  owner_eq, FrameRecord, FrameAllocator,
}

-- `records[..record_count]`
abbrev pub ledger : FrameAllocator → List (Option FrameRecord)
ledger a = take a.record_count a.records

-- `FrameAllocator::contains`
unfoldable pub contains : PhysicalFrame → FrameAllocator → Bool
unfolding range_contains
contains frame a = any (range_contains frame) (take a.range_count a.ranges)

unfoldable pub records_frame : PhysicalFrame → Option FrameRecord → Bool
records_frame frame none = false
records_frame frame (some entry) = entry.frame == frame

unfoldable pub record_index : PhysicalFrame → FrameAllocator → Option ℕ
unfolding records_frame
record_index frame a = position (records_frame frame) (ledger a)

-- `self.records[index].map(|record| record.owner)`
abbrev pub owner_at : ℕ → FrameAllocator → Option FrameOwner
owner_at index a = elim (get_elem? a.records index) [
  | none ↦ none
  | some none ↦ none
  | some (some entry) ↦ some entry.owner
]

unfoldable pub owner_of : PhysicalFrame → FrameAllocator → Option FrameOwner
unfolding record_index
owner_of frame a = elim (record_index frame a) [ none ↦ none | some index ↦ owner_at index a ]

-- The last record moves to the index.
unfoldable pub remove_record : ℕ → FrameAllocator → FrameAllocator
remove_record index a =
    let last : Option FrameRecord = elim (get_elem? a.records (a.record_count - 1)) [
      | none ↦ none
      | some entry ↦ entry
    ] in
    record a {
      records = set (set a.records index last) (a.record_count - 1) none;
      record_count = a.record_count - 1;
    }

-- `record.owner != expected_owner`, and true where there is no record
unfoldable pub is_not_owner : Option FrameOwner → Option FrameOwner → Bool
unfolding owner_eq
is_not_owner none actual = false
is_not_owner (some expected) none = true
is_not_owner (some expected) (some actual) = not (owner_eq actual expected)

-- The last lines of `free_with_owner`.
unfoldable pub recycle : PhysicalFrame → ℕ → FrameAllocator → FrameAllocator
unfolding remove_record
recycle frame index a =
    let returned = remove_record index (record a {
      free_stack = set a.free_stack a.free_stack_len frame;
      free_stack_len = a.free_stack_len + 1;
    }) in
    record returned {
      allocated_frames = a.allocated_frames - 1;
      reclaimed_frames = saturating_add a.reclaimed_frames 1;
    }

-- The tests that both `free_with_owner` and `set_owner` make first: the index of the record.
unfoldable pub find_record : PhysicalFrame → FrameAllocator → Result FreeError ℕ
unfolding contains record_index
find_record frame a =
    if not (frame % frame_size == 0)
    then err unaligned_frame
    else if not (contains frame a)
    then err outside_usable_ranges
    else elim (record_index frame a) [ none ↦ err unallocated_frame | some index ↦ ok index ]

unfoldable pub free_with_owner :
    PhysicalFrame → Option FrameOwner → FrameAllocator → Result FreeError FrameAllocator
unfolding find_record is_not_owner recycle
free_with_owner frame expected_owner a = elim (find_record frame a) [
  | err e ↦ err e
  | ok index ↦
      if is_not_owner expected_owner (owner_at index a)
      then err wrong_owner
      else if a.free_stack_len == length a.free_stack
      then err free_stack_full
      else ok (recycle frame index a)
]

unfoldable pub free : PhysicalFrame → FrameAllocator → Result FreeError FrameAllocator
unfolding free_with_owner
free frame a = free_with_owner frame none a

unfoldable pub free_owned :
    PhysicalFrame → FrameOwner → FrameAllocator → Result FreeError FrameAllocator
unfolding free_with_owner
free_owned frame expected_owner a = free_with_owner frame (some expected_owner) a

-- `if let Some(record) = &mut self.records[record_index] { record.owner = owner; }`
unfoldable pub write_owner : ℕ → FrameOwner → FrameAllocator → FrameAllocator
write_owner index owner a = elim (get_elem? a.records index) [
  | none ↦ a
  | some none ↦ a
  | some (some entry) ↦ record a {
    records = set a.records index (some (record entry { owner = owner }));
  }
]

unfoldable pub set_owner :
    PhysicalFrame → FrameOwner → FrameAllocator → Result FreeError FrameAllocator
unfolding find_record write_owner
set_owner frame owner a = elim (find_record frame a) [
  | err e ↦ err e
  | ok index ↦ ok (write_owner index owner a)
]

-- The loop of `stats`, for one kind.
unfoldable pub frames_of_kind : FrameOwnerKind → List (Option FrameRecord) → ℕ
frames_of_kind kind [] = 0
frames_of_kind kind (none ∷ entries) = frames_of_kind kind entries
frames_of_kind kind (some entry ∷ entries) =
    let rest = frames_of_kind kind entries in
    if kind_number entry.owner.kind == kind_number kind then suc rest else rest
