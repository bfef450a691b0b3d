-- ===== src/Memory/Usable.antt =====
-- The allocator that starts from the memory map: init_from_limine of kernel/krust/src/memory.rs.
use vertex_os.Base.{
  false, ℕ, ◌+◌, ◌≤◌, ◌<◌, ◌≡◌, ◌∙◌, refl, sym, ap, subst, inl, inr, true, List, [], ◌∷◌, ◌==◌,
  Result, ok, err, length, length-set, take, All, Bool-cases, arith,
}
use vertex_os.Base.Sums.{sum, sum-take_push}
use vertex_os.Base.Prefix.{All-take_push}
use vertex_os.Memory.{
  max_frame_records, free_stack_capacity, PhysicalFrame, FrameRange, FrameInitError,
  too_many_ranges, no_usable_frames, FrameAllocator, MemmapEntry, cleared, entry_range, new_range,
  is_used, push_range, add_entries, init_from_limine,
}
use vertex_os.Memory.Frames.{align_up-frames, align_down-frames, usable_frame, used-usable_frame}
use vertex_os.Memory.Places.{
  in_record, in_range, is_frame, held, stacked, unused, places, IsFrameRange, IsAllocator,
}

-- The number of usable entries of the map in which the frame lies whole.
abbrev pub usable_ranges : PhysicalFrame → List MemmapEntry → ℕ
usable_ranges frame entries = sum (usable_frame frame) entries

skipped-usable_frame :
    (frame : PhysicalFrame) (entry : MemmapEntry)
    → is_used entry ≡ false
    → usable_frame frame entry ≡ 0
skipped-usable_frame frame entry h = sym (used-usable_frame frame entry) ∙ rw h refl

ranged-usable_frame :
    (frame : PhysicalFrame) (entry : MemmapEntry)
    → is_used entry ≡ true
    → usable_frame frame entry ≡ in_range frame (entry_range entry)
ranged-usable_frame frame entry h = sym (used-usable_frame frame entry) ∙ rw h refl

-- The allocator before the first request, whatever ranges it has.
record IsFilled (a : FrameAllocator) : Type 0 where
  records : length a.records ≡ max_frame_records
  no_records : a.record_count ≡ 0
  stack : length a.free_stack ≡ free_stack_capacity
  no_stack : a.free_stack_len ≡ 0
  range_within : a.range_count ≤ length a.ranges
  whole : All IsFrameRange (take a.range_count a.ranges)
  none_allocated : a.allocated_frames ≡ 0

entry_range-IsFrameRange :
    (entry : MemmapEntry) → is_used entry ≡ true → IsFrameRange (entry_range entry)
unfolding is_used entry_range new_range
entry_range-IsFrameRange entry h = (
  omega (arith, align_up-frames entry.base),
  omega (arith, align_down-frames entry.base entry.length),
  omega arith,
  ground (arith, h),
)

push_range-IsFilled :
    (range : FrameRange) (a : FrameAllocator)
    → IsFilled a
    → a.range_count < length a.ranges
    → IsFrameRange range
    → IsFilled (push_range range a)
unfolding push_range
push_range-IsFilled range a f h w = record {
  records = f.records;
  no_records = f.no_records;
  stack = f.stack;
  no_stack = f.no_stack;
  range_within = omega (arith, length-set a.ranges a.range_count range);
  whole = All-take_push IsFrameRange a.ranges a.range_count range h f.whole w;
  none_allocated = f.none_allocated;
}

unused-push_range :
    (frame : PhysicalFrame) (range : FrameRange) (a : FrameAllocator)
    → a.range_count < length a.ranges
    → unused frame (push_range range a) ≡ unused frame a + in_range frame range
unfolding push_range
unused-push_range frame range a h = sum-take_push (in_range frame) a.ranges a.range_count range h

-- What the entries of a map leave behind the ranges before them.
record Filled (entries : List MemmapEntry) (a b : FrameAllocator) : Type 0 where
  filled : IsFilled b
  ranges : (frame : PhysicalFrame) → unused frame b ≡ unused frame a + usable_ranges frame entries

add_entries-Filled :
    (entries : List MemmapEntry) (a b : FrameAllocator)
    → IsFilled a
    → add_entries entries a ≡ ok b
    → Filled entries a b
unfolding add_entries
add_entries-Filled [] a b f h =
    subst (Filled [] a) (same h) (record { filled = f; ranges = λ frame. omega arith })
  where
    same :
        {c : FrameAllocator} → ◌≡◌ {A = Result FrameInitError FrameAllocator} (ok c) (ok b) → c ≡ b
    same e = cc
add_entries-Filled (entry ∷ entries) a b f h = elim (Bool-cases (is_used entry)) [
  | inr skipped ↦
      let rest = add_entries-Filled entries a b f (sym (rw (skipped, add_entries) refl) ∙ h) in
      record {
        filled = rest.filled;
        ranges =
            λ frame. omega (arith, rest.ranges frame, skipped-usable_frame frame entry skipped);
      }
  | inl used ↦ elim (Bool-cases (a.range_count == length a.ranges)) [
    | inl e ↦ absurd (not_ok (sym (rw (used, e, add_entries) refl) ∙ h))
    | inr e ↦
        let room : a.range_count < length a.ranges = ground (arith, f.range_within) in
        let rest =
          add_entries-Filled entries (push_range (entry_range entry) a) b
            (push_range-IsFilled (entry_range entry) a f room (entry_range-IsFrameRange entry used))
            (sym (rw (used, e, add_entries) refl) ∙ h) in
        record {
          filled = rest.filled;
          ranges = λ frame. omega (
            arith,
            rest.ranges frame,
            unused-push_range frame (entry_range entry) a room,
            ranged-usable_frame frame entry used,
          );
        }
  ]
]
  where
    not_ok : ◌≡◌ {A = Result FrameInitError FrameAllocator} (err too_many_ranges) (ok b) → ⊥
    not_ok e = cc

IsFilled-IsAllocator : (a : FrameAllocator) → IsFilled a → IsAllocator a
IsFilled-IsAllocator a f = record {
  records = f.records;
  record_within = omega (arith, f.no_records);
  stack = f.stack;
  stack_within = omega (arith, f.no_stack);
  range_within = f.range_within;
  whole = f.whole;
  counted = omega (arith, f.none_allocated, f.no_records);
  high = omega (arith, f.none_allocated);
}

places-IsFilled :
    (frame : PhysicalFrame) (a : FrameAllocator) → IsFilled a → places frame a ≡ unused frame a
places-IsFilled frame a f =
    let no_record : held frame a ≡ 0 =
      ap (λ (n : ℕ). sum (in_record frame) (take n a.records)) f.no_records in
    let no_stack : stacked frame a ≡ 0 =
      ap (λ (n : ℕ). sum (is_frame frame) (take n a.free_stack)) f.no_stack in
    omega (arith, no_record, no_stack)

cleared-IsFilled :
    (a : FrameAllocator)
    → length a.records ≡ max_frame_records
    → length a.free_stack ≡ free_stack_capacity
    → IsFilled (cleared a)
unfolding cleared
cleared-IsFilled a r s = record {
  records = r;
  no_records = refl;
  stack = s;
  no_stack = refl;
  range_within = omega arith;
  whole = tt;
  none_allocated = refl;
}

unused-cleared : (frame : PhysicalFrame) (a : FrameAllocator) → unused frame (cleared a) ≡ 0
unfolding cleared
unused-cleared frame a = refl

-- Where the initialisation from a memory map succeeds, and the tables of the allocator have
-- their sizes, the allocator is well formed, and each frame has as many places as there are
-- entries of the usable type in which it lies whole, at a multiple of 4096 and with its end
-- below 2^64.
pub init_from_limine-IsAllocator :
    (entries : List MemmapEntry) (a b : FrameAllocator)
    → length a.records ≡ max_frame_records
    → length a.free_stack ≡ free_stack_capacity
    → init_from_limine entries a ≡ ok b
    → IsAllocator b × ((frame : PhysicalFrame) → places frame b ≡ usable_ranges frame entries)
unfolding init_from_limine
init_from_limine-IsAllocator entries a b r s h = go (add_entries entries (cleared a)) refl
  where
    not_ok :
        (e : FrameInitError) → ◌≡◌ {A = Result FrameInitError FrameAllocator} (err e) (ok b) → ⊥
    not_ok e f = cc

    same :
        {c : FrameAllocator} → ◌≡◌ {A = Result FrameInitError FrameAllocator} (ok c) (ok b) → c ≡ b
    same e = cc

    go :
        (o : Result FrameInitError FrameAllocator)
        → add_entries entries (cleared a) ≡ o
        → IsAllocator b × ((frame : PhysicalFrame) → places frame b ≡ usable_ranges frame entries)
    go (err e) added = absurd (not_ok e (sym (rw (added, init_from_limine) refl) ∙ h))
    go (ok c) added = elim (Bool-cases (c.total_frames == 0)) [
      | inl e ↦ absurd (not_ok no_usable_frames (sym (rw (added, e, init_from_limine) refl) ∙ h))
      | inr e ↦
          let filled = add_entries-Filled entries (cleared a) b (cleared-IsFilled a r s) (
            added
            ∙ ap (λ (x : FrameAllocator). ok x)
                (same (sym (rw (added, e, init_from_limine) refl) ∙ h))) in
          (
            IsFilled-IsAllocator b filled.filled,
            λ frame. omega (
              arith,
              places-IsFilled frame b filled.filled,
              filled.ranges frame,
              unused-cleared frame a,
            ),
          )
    ]
