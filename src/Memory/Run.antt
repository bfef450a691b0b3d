-- ===== src/Memory/Run.antt =====
-- A run of frames that is handed out: allocate_contiguous_owned of kernel/krust/src/memory.rs.
use vertex_os.Base.{
  ℕ, zero, suc, ◌+◌, ◌-◌, ◌*◌, ◌≤◌, ◌<◌, ◌≡◌, ◌∙◌, refl, sym, ap, subst, inl, inr, Option, some,
  List, [], ◌∷◌, ◌++◌, ◌==◌, ltb, leb, length, length-set, get_elem?, set, take, All, Bool-cases,
  Option-cases, arith,
}
use vertex_os.Base.Sums.{sum, sum-append, sum-take-set}
use vertex_os.Base.Prefix.{All-take_get, All-take-set}
use vertex_os.Memory.{
  frame_size, max_frame_records, PhysicalFrame, FrameRange, FrameOwner, FrameRecord, FrameAllocator,
}
use vertex_os.Memory.Allocate.{
  record_allocated, update_high_water, record_run, bump_run, overflows, skip_range, run_from_ranges,
  allocate_contiguous_owned,
}
use vertex_os.Memory.Release.{ledger}
use vertex_os.Memory.Places.{
  is_frame, in_record, in_range, IsFrameRange, IsAllocator, Conserves, run_records, AllocCase,
  taken,
}
use vertex_os.Memory.Ranges.{between-run, in_run}
use vertex_os.Memory.Taken.{count_failure-AllocCase, AllocCase-skip_range, ledger-record_allocated}

append_assoc {ℓ} : {A : Type ℓ} (xs ys zs : List A) → (xs ++ ys) ++ zs ≡ xs ++ (ys ++ zs)
append_assoc [] ys zs = refl
append_assoc (x ∷ xs) ys zs = ap (◌∷◌ x) (append_assoc xs ys zs)

-- Only the ledger changes.
record_run-others :
    (n index : ℕ) (first : PhysicalFrame) (owner : FrameOwner) (a : FrameAllocator)
    → record_run n index first owner a ≡ record a {
      records = (record_run n index first owner a).records;
      record_count = (record_run n index first owner a).record_count;
    }
unfolding record_run record_allocated
record_run-others zero index first owner a = refl
record_run-others (suc n) index first owner a =
    record_run-others n (suc index) first owner
      (record_allocated (first + index * frame_size) owner a)

record_run-size :
    (n index : ℕ) (first : PhysicalFrame) (owner : FrameOwner) (a : FrameAllocator)
    → (length (record_run n index first owner a).records ≡ length a.records)
      × ((record_run n index first owner a).record_count ≡ a.record_count + n)
unfolding record_run record_allocated
record_run-size zero index first owner a = (refl, omega arith)
record_run-size (suc n) index first owner a =
    let entry : Option FrameRecord =
      some (record { frame = first + index * frame_size; owner = owner }) in
    let (size, count) =
      record_run-size n (suc index) first owner
        (record_allocated (first + index * frame_size) owner a) in
    (size ∙ length-set a.records a.record_count entry, omega (arith, count))

allocated_room :
    (one : PhysicalFrame) (owner : FrameOwner) (n : ℕ) (a : FrameAllocator)
    → a.record_count + suc n ≤ length a.records
    → (record_allocated one owner a).record_count + n
      ≤ length (record_allocated one owner a).records
unfolding record_allocated
allocated_room one owner n a h =
    omega
      (arith, length-set a.records a.record_count (some (record { frame = one; owner = owner })))

record_run-ledger :
    (n index : ℕ) (first : PhysicalFrame) (owner : FrameOwner) (a : FrameAllocator)
    → a.record_count + n ≤ length a.records
    → ledger (record_run n index first owner a)
      ≡ ledger a ++ run_records n (first + index * frame_size) owner
unfolding record_run
record_run-ledger zero index first owner a h = sym (append-nil (ledger a))
  where
    append-nil : (xs : List (Option FrameRecord)) → xs ++ [] ≡ xs
    append-nil [] = refl
    append-nil (x ∷ xs) = ap (◌∷◌ x) (append-nil xs)
record_run-ledger (suc n) index first owner a h =
    let one = first + index * frame_size in
    let a1 = record_allocated one owner a in
    let room : a1.record_count + n ≤ length a1.records = allocated_room one owner n a h in
    let next : first + suc index * frame_size ≡ one + frame_size = omega arith in
    record_run-ledger n (suc index) first owner a1 room
    ∙ (ap
          (λ (l : List (Option FrameRecord)).
            l ++ run_records n (first + suc index * frame_size) owner)
          (ledger-record_allocated one owner a (omega arith))
        ∙ (append_assoc (ledger a) (run_records 1 one owner)
              (run_records n (first + suc index * frame_size) owner)
            ∙ ap (λ (f : ℕ). ledger a ++ (run_records 1 one owner ++ run_records n f owner)) next))

pub sum-run_records :
    (n : ℕ) (other first : PhysicalFrame) (owner : FrameOwner)
    → sum (in_record other) (run_records n first owner) ≡ in_run n other first
sum-run_records zero other first owner = refl
sum-run_records (suc n) other first owner =
    omega (arith, sum-run_records n other (first + frame_size) owner)

bump_run-Conserves :
    (n : ℕ) (range : FrameRange) (owner : FrameOwner) (a : FrameAllocator)
    → IsAllocator a
    → a.record_count + n ≤ max_frame_records
    → a.next_range < a.range_count
    → get_elem? a.ranges a.next_range ≡ some range
    → range.next + n * frame_size ≤ range.end
    → Conserves a (bump_run n range owner a)
      × (ledger (bump_run n range owner a) ≡ ledger a ++ run_records n range.next owner)
unfolding bump_run update_high_water
bump_run-Conserves n range owner a v room inside here fits =
    let (aligned, aligned_end, order, below) : IsFrameRange range =
      All-take_get IsFrameRange a.ranges a.range_count a.next_range range v.whole inside here in
    let rest : FrameRange = record range { next = range.next + n * frame_size } in
    let moved : FrameAllocator = record a {
      ranges = set a.ranges a.next_range rest;
      allocated_frames = a.allocated_frames + n;
    } in
    let b : FrameAllocator = record_run n 0 range.next owner moved in
    let others = record_run-others n 0 range.next owner moved in
    let (size, count) = record_run-size n 0 range.next owner moved in
    let begin : range.next + 0 * frame_size ≡ range.next = omega arith in
    let grown : ledger b ≡ ledger a ++ run_records n range.next owner =
      record_run-ledger n 0 range.next owner moved (omega (arith, v.records))
      ∙ ap (λ (f : ℕ). ledger a ++ run_records n f owner) begin in
    let allocated : b.allocated_frames ≡ a.allocated_frames + n =
      ap (λ (x : FrameAllocator). x.allocated_frames) others in
    let high : b.high_water_frames ≡ a.high_water_frames =
      ap (λ (x : FrameAllocator). x.high_water_frames) others in
    let stack : b.free_stack ≡ a.free_stack = ap (λ (x : FrameAllocator). x.free_stack) others in
    let stack_len : b.free_stack_len ≡ a.free_stack_len =
      ap (λ (x : FrameAllocator). x.free_stack_len) others in
    let ranges : b.ranges ≡ set a.ranges a.next_range rest =
      ap (λ (x : FrameAllocator). x.ranges) others in
    let range_count : b.range_count ≡ a.range_count =
      ap (λ (x : FrameAllocator). x.range_count) others in
    (
      record {
        valid = record {
          records = size ∙ v.records;
          record_within = omega (arith, count);
          stack = ap (length {A = ℕ}) stack ∙ v.stack;
          stack_within = omega (arith, stack_len, v.stack_within);
          range_within = omega (
            arith,
            range_count,
            ap (length {A = FrameRange}) ranges,
            v.range_within,
            length-set a.ranges a.next_range rest,
          );
          whole =
              subst (λ (x : FrameAllocator). All IsFrameRange (take x.range_count x.ranges))
                (sym others)
                (All-take-set IsFrameRange a.ranges a.range_count a.next_range rest v.whole
                  (omega arith, aligned_end, omega arith, fits));
          counted = omega (arith, allocated, count, v.counted);
          high = ground (arith, allocated, high);
        };
        same_places = λ other. omega (
          arith,
          ap (sum (in_record other)) grown,
          sum-append (in_record other) (ledger a) (run_records n range.next owner),
          sum-run_records n other range.next owner,
          between-run n other range.next range.end aligned fits,
          sum-take-set (in_range other) a.ranges a.range_count a.next_range range rest inside here,
          ap (λ (x : FrameAllocator). sum (is_frame other) (take x.free_stack_len x.free_stack))
              others,
          ap (λ (x : FrameAllocator). sum (in_range other) (take x.range_count x.ranges)) others,
        );
      },
      grown,
    )

run_from_ranges-AllocCase :
    (left n : ℕ) (owner : FrameOwner) (a : FrameAllocator)
    → IsAllocator a
    → a.record_count + n ≤ max_frame_records
    → left ≤ a.range_count - a.next_range
    → AllocCase n owner a (run_from_ranges left n owner a)
unfolding run_from_ranges skip_range
run_from_ranges-AllocCase zero n owner a v room h = count_failure-AllocCase n owner a v
run_from_ranges-AllocCase (suc left) n owner a v room h =
    elim (Option-cases (get_elem? a.ranges a.next_range)) [
      | inl e ↦ rw (e, run_from_ranges) (count_failure-AllocCase n owner a v)
      | inr (range, e) ↦ elim (Bool-cases (overflows n range)) [
        | inl f ↦ rw (e, f, run_from_ranges) (count_failure-AllocCase n owner a v)
        | inr f ↦ elim (Bool-cases (leb (range.next + n * frame_size) range.end)) [
          | inl g ↦
              let (conserves, grown) =
                bump_run-Conserves n range owner a v room (omega arith) e (ground (arith, g)) in
              rw (e, f, g, run_from_ranges)
                (taken range.next (bump_run n range owner a) conserves grown)
          | inr g ↦
              rw (e, f, g, run_from_ranges)
                (AllocCase-skip_range n owner a _ v
                  (λ w. run_from_ranges-AllocCase left n owner (skip_range a) w room (omega arith)))
        ]
      ]
    ]

pub allocate_contiguous_owned-AllocCase :
    (n : ℕ) (owner : FrameOwner) (a : FrameAllocator)
    → IsAllocator a
    → AllocCase n owner a (allocate_contiguous_owned n owner a)
unfolding allocate_contiguous_owned
allocate_contiguous_owned-AllocCase n owner a v = elim (Bool-cases (n == 0)) [
  | inl e ↦ rw (e, allocate_contiguous_owned) (count_failure-AllocCase n owner a v)
  | inr e ↦ elim (Bool-cases (ltb (length a.records - a.record_count) n)) [
    | inl f ↦ rw (e, f, allocate_contiguous_owned) (count_failure-AllocCase n owner a v)
    | inr f ↦
        rw (e, f, allocate_contiguous_owned)
          (run_from_ranges-AllocCase (a.range_count - a.next_range) n owner a v
            (ground (arith, v.records, v.record_within)) (omega arith))
  ]
]
