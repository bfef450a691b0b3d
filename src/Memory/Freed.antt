-- ===== src/Memory/Freed.antt =====
-- A frame that comes back: free, free_owned and set_owner of kernel/krust/src/memory.rs.
use vertex_os.Base.{
  ℕ, ◌-◌, ◌%◌, ◌<◌, ◌≡◌, ◌∙◌, refl, sym, ap, subst, inl, inr, true, Option, none, some, ◌==◌, ==→eq,
  Result, ok, err, length, length-set, length-take, get_elem?-inside, get_elem?, set, Bool-cases,
  Option-cases, arith,
}
use vertex_os.Base.Search.{position-cases, get_elem?-take}
use vertex_os.Base.Sums.{sum-take-set, sum-take_push, sum-take_remove}
use vertex_os.Memory.{
  frame_size, free_stack_capacity, PhysicalFrame, FreeError, unaligned_frame, outside_usable_ranges,
  unallocated_frame, wrong_owner, free_stack_full, FrameOwner, FrameRecord, FrameAllocator,
}
use vertex_os.Memory.Release.{
  ledger, contains, records_frame, record_index, owner_at, remove_record, is_not_owner, recycle,
  find_record, free_with_owner, write_owner, set_owner,
}
use vertex_os.Memory.Places.{is_frame, in_record, IsAllocator, Conserves}

-- The record that a search found.
pub record Recorded (frame : PhysicalFrame) (a : FrameAllocator) (index : ℕ) : Type 0 where
  pub entry : FrameRecord
  pub inside : index < a.record_count
  pub here : get_elem? a.records index ≡ some (some entry)
  pub same : entry.frame ≡ frame

record_index-Recorded :
    (frame : PhysicalFrame) (a : FrameAllocator) (index : ℕ)
    → record_index frame a ≡ some index
    → Recorded frame a index
unfolding record_index records_frame
record_index-Recorded frame a index h = elim (position-cases (records_frame frame) (ledger a)) [
  | inl (e, _) ↦ absurd (none_some (sym e ∙ h))
  | inr (i, e, f) ↦
      go i (same_index (sym e ∙ h)) f.item f.here
        (omega (arith, f.inside, length-take a.record_count a.records)) f.passes
]
  where
    none_some : none ≡ some index → ⊥
    none_some e = cc

    same_index : {i : ℕ} → some i ≡ some index → i ≡ index
    same_index e = cc

    go :
        (i : ℕ)
        → i ≡ index
        → (slot : Option FrameRecord) → get_elem? (ledger a) i ≡ some slot
        → i < a.record_count
        → records_frame frame slot ≡ true
        → Recorded frame a index
    go i e none here inside passes = cc
    go i e (some entry) here inside passes = record {
      entry = entry;
      inside = omega arith;
      here = ap (get_elem? a.records) (sym e) ∙ get_elem?-take a.record_count a.records i here;
      same = ==→eq entry.frame frame passes;
    }

-- What the search of both operations finds.
pub find_record-Recorded :
    (frame : PhysicalFrame) (a : FrameAllocator) (index : ℕ)
    → find_record frame a ≡ ok index
    → Recorded frame a index
unfolding find_record
find_record-Recorded frame a index h = elim (Bool-cases (frame % frame_size == 0)) [
  | inr odd ↦ absurd (not_ok unaligned_frame (sym (rw (odd, find_record) refl) ∙ h))
  | inl even ↦ elim (Bool-cases (contains frame a)) [
    | inr outside ↦
        absurd (not_ok outside_usable_ranges (sym (rw (even, outside, find_record) refl) ∙ h))
    | inl inside ↦ elim (Option-cases (record_index frame a)) [
      | inl e ↦ absurd (not_ok unallocated_frame (sym (rw (even, inside, e, find_record) refl) ∙ h))
      | inr (i, e) ↦ record_index-Recorded frame a index (
          e
          ∙ ap (λ (n : ℕ). some n) (same_index (sym (rw (even, inside, e, find_record) refl) ∙ h)))
    ]
  ]
]
  where
    not_ok : (e : FreeError) → ◌≡◌ {A = Result FreeError ℕ} (err e) (ok index) → ⊥
    not_ok e f = cc

    same_index : {i : ℕ} → ◌≡◌ {A = Result FreeError ℕ} (ok i) (ok index) → i ≡ index
    same_index e = cc

recycle-Conserves :
    (frame : PhysicalFrame) (index : ℕ) (a : FrameAllocator)
    → IsAllocator a
    → Recorded frame a index
    → a.free_stack_len < free_stack_capacity
    → Conserves a (recycle frame index a)
unfolding recycle remove_record
recycle-Conserves frame index a v r room =
    let (last, e) =
      get_elem?-inside a.records (a.record_count - 1)
        (omega (arith, r.inside, v.records, v.record_within)) in
    let freed : Option FrameRecord = none in
    rw (e, recycle, remove_record)
      (record {
        valid = record {
          records =
              length-set (set a.records index last) (a.record_count - 1) freed
              ∙ (length-set a.records index last ∙ v.records);
          record_within = omega (arith, v.record_within);
          stack = length-set a.free_stack a.free_stack_len frame ∙ v.stack;
          stack_within = omega arith;
          range_within = v.range_within;
          whole = v.whole;
          counted = omega (arith, v.counted);
          high = omega (arith, v.high);
        };
        same_places = λ other. omega (
          arith,
          sum-take_remove (in_record other) a.records a.record_count index (some r.entry) last freed
              r.inside r.here e,
          sum-take_push (is_frame other) a.free_stack a.free_stack_len frame
              (omega (arith, v.stack)),
          ap (is_frame other) r.same,
        );
      })

pub free_with_owner-Conserves :
    (frame : PhysicalFrame) (expected : Option FrameOwner) (a b : FrameAllocator)
    → IsAllocator a
    → free_with_owner frame expected a ≡ ok b
    → Conserves a b
unfolding free_with_owner
free_with_owner-Conserves frame expected a b v h = go (find_record frame a) refl
  where
    not_ok : (e : FreeError) → ◌≡◌ {A = Result FreeError FrameAllocator} (err e) (ok b) → ⊥
    not_ok e f = cc

    same : {c : FrameAllocator} → ◌≡◌ {A = Result FreeError FrameAllocator} (ok c) (ok b) → c ≡ b
    same e = cc

    go : (o : Result FreeError ℕ) → find_record frame a ≡ o → Conserves a b
    go (err e) found = absurd (not_ok e (sym (rw (found, free_with_owner) refl) ∙ h))
    go (ok index) found = elim (Bool-cases (is_not_owner expected (owner_at index a))) [
      | inl other ↦ absurd (not_ok wrong_owner (sym (rw (found, other, free_with_owner) refl) ∙ h))
      | inr own ↦ elim (Bool-cases (a.free_stack_len == length a.free_stack)) [
        | inl full ↦
            absurd (not_ok free_stack_full (sym (rw (found, own, full, free_with_owner) refl) ∙ h))
        | inr room ↦
            subst (Conserves a) (same (sym (rw (found, own, room, free_with_owner) refl) ∙ h)) (
              recycle-Conserves frame index a v (find_record-Recorded frame a index found)
                (ground (arith, v.stack, v.stack_within)))
      ]
    ]

write_owner-Conserves :
    (frame : PhysicalFrame) (index : ℕ) (owner : FrameOwner) (a : FrameAllocator)
    → IsAllocator a
    → Recorded frame a index
    → Conserves a (write_owner index owner a)
unfolding write_owner
write_owner-Conserves frame index owner a v r =
    let renamed : Option FrameRecord = some (record (r.entry) { owner = owner }) in
    rw (r.here, write_owner)
      (record {
        valid = record {
          records = length-set a.records index renamed ∙ v.records;
          record_within = v.record_within;
          stack = v.stack;
          stack_within = v.stack_within;
          range_within = v.range_within;
          whole = v.whole;
          counted = v.counted;
          high = v.high;
        };
        same_places = λ other. omega (
          arith,
          sum-take-set (in_record other) a.records a.record_count index (some r.entry) renamed
              r.inside r.here,
        );
      })

pub set_owner-Conserves :
    (frame : PhysicalFrame) (owner : FrameOwner) (a b : FrameAllocator)
    → IsAllocator a
    → set_owner frame owner a ≡ ok b
    → Conserves a b
unfolding set_owner
set_owner-Conserves frame owner a b v h = go (find_record frame a) refl
  where
    not_ok : (e : FreeError) → ◌≡◌ {A = Result FreeError FrameAllocator} (err e) (ok b) → ⊥
    not_ok e f = cc

    same : {c : FrameAllocator} → ◌≡◌ {A = Result FreeError FrameAllocator} (ok c) (ok b) → c ≡ b
    same e = cc

    go : (o : Result FreeError ℕ) → find_record frame a ≡ o → Conserves a b
    go (err e) found = absurd (not_ok e (sym (rw (found, set_owner) refl) ∙ h))
    go (ok index) found =
        subst (Conserves a) (same (sym (rw (found, set_owner) refl) ∙ h))
          (write_owner-Conserves frame index owner a v (find_record-Recorded frame a index found))
