-- ===== src/Memory/Taken.antt =====
-- A single frame that is handed out: allocate_owned of kernel/krust/src/memory.rs.
use vertex_os.Base.{
  ℕ, zero, suc, ◌+◌, ◌-◌, ◌≤◌, ◌<◌, ◌≡◌, ◌∙◌, refl, sym, ap, inl, inr, Option, none, some, ◌++◌,
  take-set_end, ◌==◌, ltb, ltb→lt, length, length-set, get_elem?, set, take, Bool-cases,
  Option-cases, arith,
}
use vertex_os.Base.Sums.{sum, sum-take-suc, sum-take-set, sum-take_push}
use vertex_os.Base.Prefix.{All-take_get, All-take-set}
use vertex_os.Memory.{
  frame_size, max_frame_records, PhysicalFrame, FrameRange, FrameOwner, FrameRecord, FrameAllocator,
}
use vertex_os.Memory.Allocate.{
  record_allocated, update_high_water, count_failure, pop_frame, bump_frame, skip_range,
  from_ranges, from_stack, allocate_owned,
}
use vertex_os.Memory.Release.{ledger}
use vertex_os.Memory.Places.{
  is_frame, in_record, in_range, held, stacked, IsFrameRange, IsAllocator, Conserves, run_records,
  AllocCase, taken, refused,
}
use vertex_os.Memory.Ranges.{between-next}

pub held-record_allocated :
    (frame first : PhysicalFrame) (owner : FrameOwner) (a : FrameAllocator)
    → a.record_count < length a.records
    → held frame (record_allocated first owner a) ≡ held frame a + is_frame frame first
unfolding record_allocated
held-record_allocated frame first owner a h =
    sum-take_push (in_record frame) a.records a.record_count
      (some (record { frame = first; owner = owner })) h

pub count_failure-Conserves : (a : FrameAllocator) → IsAllocator a → Conserves a (count_failure a)
unfolding count_failure
count_failure-Conserves a v = record {
  valid = record {
    records = v.records;
    record_within = v.record_within;
    stack = v.stack;
    stack_within = v.stack_within;
    range_within = v.range_within;
    whole = v.whole;
    counted = v.counted;
    high = v.high;
  };
  same_places = λ frame. refl;
}

skip_range-IsAllocator : (a : FrameAllocator) → IsAllocator a → IsAllocator (skip_range a)
unfolding skip_range
skip_range-IsAllocator a v = record {
  records = v.records;
  record_within = v.record_within;
  stack = v.stack;
  stack_within = v.stack_within;
  range_within = v.range_within;
  whole = v.whole;
  counted = v.counted;
  high = v.high;
}

-- What was skipped keeps its places.
pub AllocCase-skip_range :
    (n : ℕ) (owner : FrameOwner) (a : FrameAllocator) (r : Option PhysicalFrame × FrameAllocator)
    → (v : IsAllocator a) → (IsAllocator (skip_range a) → AllocCase n owner (skip_range a) r)
    → AllocCase n owner a r
unfolding skip_range
AllocCase-skip_range n owner a r v later = go r (later (skip_range-IsAllocator a v))
  where
    go :
        (r : Option PhysicalFrame × FrameAllocator)
        → AllocCase n owner (skip_range a) r
        → AllocCase n owner a r
    go r (taken first b c grown) =
        taken first b (record { valid = c.valid; same_places = λ frame. c.same_places frame }) grown
    go r (refused b c same) =
        refused b (record { valid = c.valid; same_places = λ frame. c.same_places frame }) same

pub count_failure-AllocCase :
    (n : ℕ) (owner : FrameOwner) (a : FrameAllocator)
    → IsAllocator a
    → AllocCase n owner a (none, count_failure a)
unfolding count_failure
count_failure-AllocCase n owner a v = refused (count_failure a) (count_failure-Conserves a v) refl

pub ledger-record_allocated :
    (first : PhysicalFrame) (owner : FrameOwner) (a : FrameAllocator)
    → a.record_count < length a.records
    → ledger (record_allocated first owner a) ≡ ledger a ++ run_records 1 first owner
unfolding record_allocated
ledger-record_allocated first owner a h =
    let next : a.record_count + 1 ≡ suc a.record_count = omega arith in
    let entry : Option FrameRecord = some (record { frame = first; owner = owner }) in
    ap (λ (n : ℕ). take n (set a.records a.record_count entry)) next
    ∙ take-set_end a.records a.record_count entry h

pop_frame-Conserves :
    (frame : PhysicalFrame) (owner : FrameOwner) (a : FrameAllocator)
    → IsAllocator a
    → a.record_count < max_frame_records
    → 0 < a.free_stack_len
    → get_elem? a.free_stack (a.free_stack_len - 1) ≡ some frame
    → Conserves a (pop_frame frame owner a)
unfolding pop_frame record_allocated update_high_water
pop_frame-Conserves frame owner a v room some_frame top =
    let near : a.record_count < length a.records = omega (arith, v.records) in
    record {
      valid = record {
        records =
            length-set a.records a.record_count (some (record { frame = frame; owner = owner }))
            ∙ v.records;
        record_within = omega arith;
        stack = v.stack;
        stack_within = omega (arith, v.stack_within);
        range_within = v.range_within;
        whole = v.whole;
        counted = omega (arith, v.counted);
        high = ground arith;
      };
      same_places = λ other.
          let next : suc (a.free_stack_len - 1) ≡ a.free_stack_len = omega arith in
          let popped : stacked other a
              ≡ sum (is_frame other) (take (a.free_stack_len - 1) a.free_stack)
                + is_frame other frame =
            ap (λ (k : ℕ). sum (is_frame other) (take k a.free_stack)) (sym next)
            ∙ sum-take-suc (is_frame other) a.free_stack (a.free_stack_len - 1) frame top in
          omega (
            arith,
            popped,
            sum-take_push (in_record other) a.records a.record_count
                (some (record { frame = frame; owner = owner })) near,
          );
    }

bump_frame-Conserves :
    (range : FrameRange) (owner : FrameOwner) (a : FrameAllocator)
    → IsAllocator a
    → a.record_count < max_frame_records
    → a.next_range < a.range_count
    → get_elem? a.ranges a.next_range ≡ some range
    → range.next < range.end
    → Conserves a (bump_frame range owner a)
unfolding bump_frame record_allocated update_high_water
bump_frame-Conserves range owner a v room inside here left =
    let near : a.record_count < length a.records = omega (arith, v.records) in
    let (aligned, aligned_end, order, below) : IsFrameRange range =
      All-take_get IsFrameRange a.ranges a.range_count a.next_range range v.whole inside here in
    let fits : range.next + frame_size ≤ range.end = omega arith in
    let rest : FrameRange = record range { next = range.next + frame_size } in
    record {
      valid = record {
        records =
            length-set a.records a.record_count
              (some (record { frame = range.next; owner = owner }))
            ∙ v.records;
        record_within = omega arith;
        stack = v.stack;
        stack_within = v.stack_within;
        range_within = omega (arith, v.range_within, length-set a.ranges a.next_range rest);
        whole =
            All-take-set IsFrameRange a.ranges a.range_count a.next_range rest v.whole
              (omega arith, aligned_end, omega arith, fits);
        counted = omega (arith, v.counted);
        high = ground arith;
      };
      same_places = λ other. omega (
        arith,
        between-next other range.next range.end aligned fits,
        sum-take-set (in_range other) a.ranges a.range_count a.next_range range rest inside here,
        sum-take_push (in_record other) a.records a.record_count
            (some (record { frame = range.next; owner = owner })) near,
      );
    }

from_ranges-AllocCase :
    (left : ℕ) (owner : FrameOwner) (a : FrameAllocator)
    → IsAllocator a
    → a.record_count < max_frame_records
    → left ≤ a.range_count - a.next_range
    → AllocCase 1 owner a (from_ranges left owner a)
unfolding from_ranges bump_frame update_high_water skip_range
from_ranges-AllocCase zero owner a v room h = count_failure-AllocCase 1 owner a v
from_ranges-AllocCase (suc left) owner a v room h =
    elim (Option-cases (get_elem? a.ranges a.next_range)) [
      | inl e ↦ rw (e, from_ranges) (count_failure-AllocCase 1 owner a v)
      | inr (range, e) ↦ elim (Bool-cases (ltb range.next range.end)) [
        | inl f ↦
            rw (e, f, from_ranges)
              (taken range.next (bump_frame range owner a)
                (bump_frame-Conserves range owner a v room (omega arith) e
                  (ltb→lt range.next range.end f))
                (ledger-record_allocated range.next owner a (omega (arith, v.records))))
        | inr f ↦
            rw (e, f, from_ranges)
              (AllocCase-skip_range 1 owner a _ v
                (λ w. from_ranges-AllocCase left owner (skip_range a) w room (omega arith)))
      ]
    ]

from_stack-AllocCase :
    (owner : FrameOwner) (a : FrameAllocator)
    → IsAllocator a
    → a.record_count < max_frame_records
    → 0 < a.free_stack_len
    → AllocCase 1 owner a (from_stack owner a)
unfolding from_stack pop_frame update_high_water
from_stack-AllocCase owner a v room h =
    elim (Option-cases (get_elem? a.free_stack (a.free_stack_len - 1))) [
      | inl e ↦ rw (e, from_stack) (count_failure-AllocCase 1 owner a v)
      | inr (frame, e) ↦
          rw (e, from_stack)
            (taken frame (pop_frame frame owner a) (pop_frame-Conserves frame owner a v room h e)
              (ledger-record_allocated frame owner a (omega (arith, v.records))))
    ]

pub allocate_owned-AllocCase :
    (owner : FrameOwner) (a : FrameAllocator)
    → IsAllocator a
    → AllocCase 1 owner a (allocate_owned owner a)
unfolding allocate_owned
allocate_owned-AllocCase owner a v = elim (Bool-cases (a.record_count == length a.records)) [
  | inl full ↦ rw (full, allocate_owned) (count_failure-AllocCase 1 owner a v)
  | inr room ↦
      let near : a.record_count < max_frame_records = ground (arith, v.records, v.record_within) in
      elim (Bool-cases (ltb 0 a.free_stack_len)) [
        | inl e ↦
            rw (room, e, allocate_owned)
              (from_stack-AllocCase owner a v near (ltb→lt 0 a.free_stack_len e))
        | inr e ↦
            rw (room, e, allocate_owned)
              (from_ranges-AllocCase (a.range_count - a.next_range) owner a v near (omega arith))
      ]
]
