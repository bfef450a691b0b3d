-- ===== src/Memory/Fresh.antt =====
-- No frame is handed out twice, and none is freed twice: kernel/krust/src/memory.rs.
use vertex_os.Base.{
  ℕ, zero, suc, ◌+◌, ◌*◌, ◌%◌, ◌≤◌, ◌<◌, ◌≡◌, ◌∙◌, refl, sym, ap, subst, inl, inr, Bool, true,
  false, Option, none, some, List, [], ◌∷◌, ◌++◌, ◌==◌, eq→==, Result, ok, err, length, get_elem?,
  position, Bool-cases, arith,
}
use vertex_os.Base.Search.{Fails, get_elem?-take}
use vertex_os.Base.Sums.{sum, sum-append, sum-take_push}
use vertex_os.Memory.{
  frame_size, PhysicalFrame, FreeError, unaligned_frame, outside_usable_ranges, unallocated_frame,
  wrong_owner, free_stack_full, FrameOwner, FrameRecord, FrameAllocator,
}
use vertex_os.Memory.Allocate.{allocate_owned, allocate_contiguous_owned}
use vertex_os.Memory.Release.{
  ledger, contains, records_frame, record_index, owner_at, owner_of, remove_record, is_not_owner,
  recycle, find_record, free_with_owner,
}
use vertex_os.Memory.Places.{
  is_frame, in_record, held, stacked, places, IsAllocator, Conserves, run_records, AllocCase, taken,
  refused,
}
use vertex_os.Memory.Ranges.{in_run}
use vertex_os.Memory.Taken.{allocate_owned-AllocCase}
use vertex_os.Memory.Run.{allocate_contiguous_owned-AllocCase, sum-run_records}
use vertex_os.Memory.Freed.{free_with_owner-Conserves}

-- A frame that no record counts is in none.
unheld-Fails :
    (frame : PhysicalFrame) (slots : List (Option FrameRecord))
    → sum (in_record frame) slots ≡ 0
    → (position (records_frame frame) slots ≡ none) × Fails (records_frame frame) slots
unfolding records_frame
unheld-Fails frame [] h = (refl, tt)
unheld-Fails frame (none ∷ slots) h =
    let (e, fails) = unheld-Fails frame slots (omega (arith, h)) in
    (rw (e, position) refl, (refl, fails))
unheld-Fails frame (some entry ∷ slots) h =
    let (e, fails) = unheld-Fails frame slots (omega (arith, h)) in
    let other : (entry.frame == frame) ≡ false = ground (arith, h) in
    (rw (other, e, position) refl, (other, fails))

unheld-owner_of :
    (frame : PhysicalFrame) (a : FrameAllocator) → held frame a ≡ 0 → owner_of frame a ≡ none
unfolding owner_of record_index
unheld-owner_of frame a h = rw ((unheld-Fails frame (ledger a) h).0, owner_of, record_index) refl

-- The search finds the last entry where the others fail.
position-last :
    {A : Type 0} (test : A → Bool) (xs : List A) (x : A)
    → Fails test xs
    → test x ≡ true
    → (position test (xs ++ x ∷ []) ≡ some (length xs))
      × (get_elem? (xs ++ x ∷ []) (length xs) ≡ some x)
position-last test [] x fails hit = (rw (hit, position) refl, refl)
position-last test (y ∷ xs) x (miss, fails) hit =
    let (e, there) = position-last test xs x fails hit in (rw (miss, e, position) refl, there)

owner_of-last :
    (frame : PhysicalFrame) (owner : FrameOwner) (a b : FrameAllocator)
    → held frame a ≡ 0
    → ledger b ≡ ledger a ++ run_records 1 frame owner
    → owner_of frame b ≡ some owner
unfolding owner_of record_index records_frame
owner_of-last frame owner a b h grown =
    let entry : Option FrameRecord = some (record { frame = frame; owner = owner }) in
    let (e, there) =
      position-last (records_frame frame) (ledger a) entry (unheld-Fails frame (ledger a) h).1
        (eq→== frame frame refl) in
    let found : position (records_frame frame) (ledger b) ≡ some (length (ledger a)) =
      ap (position (records_frame frame)) grown ∙ e in
    let read : get_elem? b.records (length (ledger a)) ≡ some entry =
      get_elem?-take b.record_count b.records (length (ledger a))
        (ap (λ (l : List (Option FrameRecord)). get_elem? l (length (ledger a))) grown ∙ there) in
    rw (found, owner_of, record_index) (rw (read, owner_at) refl)

-- In a well-formed allocator, where a frame has at most one place among the ranges, the free
-- stack and the ledger, a request that returns this frame finds it without an owner, and enters
-- the owner of the request.
pub allocate_owned_fresh :
    (owner : FrameOwner) (frame : PhysicalFrame) (a b : FrameAllocator)
    → IsAllocator a
    → places frame a ≤ 1
    → allocate_owned owner a ≡ (some frame, b)
    → (owner_of frame a ≡ none) × (owner_of frame b ≡ some owner)
allocate_owned_fresh owner frame a b v once h = go _ (allocate_owned-AllocCase owner a v) h
  where
    at_first :
        (first : PhysicalFrame) (c : FrameAllocator)
        → Conserves a c
        → ledger c ≡ ledger a ++ run_records 1 first owner
        → first ≡ frame
        → c ≡ b
        → (owner_of frame a ≡ none) × (owner_of frame b ≡ some owner)
    at_first first c conserves grown same_frame same_state =
        let itself : is_frame first first ≡ 1 = rw (eq→== first first refl) refl in
        let more : held first c ≡ held first a + 1 = omega (
          arith,
          ap (sum (in_record first)) grown,
          sum-append (in_record first) (ledger a) (run_records 1 first owner),
          itself,
        ) in
        let once' : places first a ≤ 1 = subst (λ (f : ℕ). places f a ≤ 1) (sym same_frame) once in
        let free_before : held first a ≡ 0 =
          omega (arith, more, conserves.same_places first, once') in
        subst (λ (f : ℕ). (owner_of f a ≡ none) × (owner_of f b ≡ some owner)) same_frame
          (subst
            (λ (s : FrameAllocator). (owner_of first a ≡ none) × (owner_of first s ≡ some owner))
            same_state
            (unheld-owner_of first a free_before, owner_of-last first owner a c free_before grown))

    go :
        (r : Option PhysicalFrame × FrameAllocator)
        → AllocCase 1 owner a r
        → r ≡ (some frame, b)
        → (owner_of frame a ≡ none) × (owner_of frame b ≡ some owner)
    go r (refused c conserves same) e = cc
    go r (taken first c conserves grown) e =
        let same_frame : first ≡ frame = cc in
        let same_state : c ≡ b = cc in at_first first c conserves grown same_frame same_state

in_run-inside : (n k first : ℕ) → k < n → 0 < in_run n (first + k * frame_size) first
in_run-inside zero k first h = absurd (omega arith)
in_run-inside (suc n) zero first h =
    let itself : first + 0 * frame_size ≡ first = omega arith in
    let hit : is_frame (first + 0 * frame_size) first ≡ 1 = ground (arith, itself) in
    omega (arith, hit)
in_run-inside (suc n) (suc k) first h =
    let same : first + frame_size + k * frame_size ≡ first + suc k * frame_size = omega arith in
    omega (
      arith,
      ap (λ (f : ℕ). in_run n f (first + frame_size)) same,
      in_run-inside n k (first + frame_size) (omega arith),
    )

-- In a well-formed allocator, a request for a run of frames that succeeds returns a run in which
-- no frame with at most one place had an owner before.
pub allocate_contiguous_owned_fresh :
    (n k : ℕ) (owner : FrameOwner) (first : PhysicalFrame) (a b : FrameAllocator)
    → IsAllocator a
    → k < n
    → places (first + k * frame_size) a ≤ 1
    → allocate_contiguous_owned n owner a ≡ (some first, b)
    → owner_of (first + k * frame_size) a ≡ none
allocate_contiguous_owned_fresh n k owner first a b v inside once h =
    go _ (allocate_contiguous_owned-AllocCase n owner a v) h
  where
    at_first :
        (start : PhysicalFrame) (c : FrameAllocator)
        → Conserves a c
        → ledger c ≡ ledger a ++ run_records n start owner
        → start ≡ first
        → owner_of (first + k * frame_size) a ≡ none
    at_first start c conserves grown same =
        let frame : ℕ = first + k * frame_size in
        let here : in_run n frame start ≡ in_run n frame first = ap (in_run n frame) same in
        unheld-owner_of frame a (
          omega (
            arith,
            ap (sum (in_record frame)) grown,
            sum-append (in_record frame) (ledger a) (run_records n start owner),
            sum-run_records n frame start owner,
            here,
            in_run-inside n k first inside,
            conserves.same_places frame,
          ))

    go :
        (r : Option PhysicalFrame × FrameAllocator)
        → AllocCase n owner a r
        → r ≡ (some first, b)
        → owner_of (first + k * frame_size) a ≡ none
    go r (refused c conserves same) e = cc
    go r (taken start c conserves grown) e =
        let same : start ≡ first = cc in at_first start c conserves grown same

-- What a frame that came back leaves.
recycle-contains :
    (frame : PhysicalFrame) (index : ℕ) (a : FrameAllocator)
    → contains frame (recycle frame index a) ≡ contains frame a
unfolding contains recycle remove_record
recycle-contains frame index a = refl

recycle-stacked :
    (frame : PhysicalFrame) (index : ℕ) (a : FrameAllocator)
    → a.free_stack_len < length a.free_stack
    → stacked frame (recycle frame index a) ≡ stacked frame a + 1
unfolding recycle remove_record
recycle-stacked frame index a h =
    let itself : is_frame frame frame ≡ 1 = rw (eq→== frame frame refl) refl in
    omega (arith, itself, sum-take_push (is_frame frame) a.free_stack a.free_stack_len frame h)

recycle-held :
    (frame : PhysicalFrame) (index : ℕ) (a : FrameAllocator)
    → a.free_stack_len < length a.free_stack
    → places frame a ≤ 1
    → Conserves a (recycle frame index a)
    → held frame (recycle frame index a) ≡ 0
recycle-held frame index a h once c =
    omega (arith, recycle-stacked frame index a h, c.same_places frame)

refused-unheld :
    (frame : PhysicalFrame) (expected : Option FrameOwner) (b : FrameAllocator)
    → (frame % frame_size == 0) ≡ true
    → contains frame b ≡ true
    → held frame b ≡ 0
    → free_with_owner frame expected b ≡ err unallocated_frame
unfolding free_with_owner find_record record_index
refused-unheld frame expected b even inside unheld =
    rw
      (
        even,
        inside,
        (unheld-Fails frame (ledger b) unheld).0,
        free_with_owner,
        find_record,
        record_index,
      )
      refl

-- The tests that a successful search passed.
find_record-passed :
    (frame : PhysicalFrame) (a : FrameAllocator) (index : ℕ)
    → find_record frame a ≡ ok index
    → ((frame % frame_size == 0) ≡ true) × (contains frame a ≡ true)
unfolding find_record
find_record-passed frame a index h = elim (Bool-cases (frame % frame_size == 0)) [
  | inr odd ↦ absurd (not_ok unaligned_frame (sym (rw (odd, find_record) refl) ∙ h))
  | inl even ↦ elim (Bool-cases (contains frame a)) [
    | inr outside ↦
        absurd (not_ok outside_usable_ranges (sym (rw (even, outside, find_record) refl) ∙ h))
    | inl inside ↦ (even, inside)
  ]
]
  where
    not_ok : (e : FreeError) → ◌≡◌ {A = Result FreeError ℕ} (err e) (ok index) → ⊥
    not_ok e f = cc

-- In a well-formed allocator, where a frame has at most one place, a release of the frame that
-- succeeds leaves it without an owner, and a second release is refused as unallocated, whichever
-- owner either expects.
pub free_with_owner_twice :
    (frame : PhysicalFrame) (expected again : Option FrameOwner) (a b : FrameAllocator)
    → IsAllocator a
    → places frame a ≤ 1
    → free_with_owner frame expected a ≡ ok b
    → (owner_of frame b ≡ none) × (free_with_owner frame again b ≡ err unallocated_frame)
unfolding free_with_owner
free_with_owner_twice frame expected again a b v once h = go (find_record frame a) refl
  where
    not_ok : (e : FreeError) → ◌≡◌ {A = Result FreeError FrameAllocator} (err e) (ok b) → ⊥
    not_ok e f = cc

    same : {c : FrameAllocator} → ◌≡◌ {A = Result FreeError FrameAllocator} (ok c) (ok b) → c ≡ b
    same e = cc

    after :
        (index : ℕ)
        → recycle frame index a ≡ b
        → (frame % frame_size == 0) ≡ true
        → contains frame a ≡ true
        → a.free_stack_len < length a.free_stack
        → (owner_of frame b ≡ none) × (free_with_owner frame again b ≡ err unallocated_frame)
    after index e even inside room =
        let c : Conserves a b = free_with_owner-Conserves frame expected a b v h in
        let unheld : held frame b ≡ 0 =
          subst (λ (s : FrameAllocator). held frame s ≡ 0) e
            (recycle-held frame index a room once (subst (Conserves a) (sym e) c)) in
        (
          unheld-owner_of frame b unheld,
          refused-unheld frame again b even
              (sym (ap (contains frame) e) ∙ (recycle-contains frame index a ∙ inside)) unheld,
        )

    go :
        (o : Result FreeError ℕ)
        → find_record frame a ≡ o
        → (owner_of frame b ≡ none) × (free_with_owner frame again b ≡ err unallocated_frame)
    go (err e) found = absurd (not_ok e (sym (rw (found, free_with_owner) refl) ∙ h))
    go (ok index) found = elim (Bool-cases (is_not_owner expected (owner_at index a))) [
      | inl other ↦ absurd (not_ok wrong_owner (sym (rw (found, other, free_with_owner) refl) ∙ h))
      | inr own ↦ elim (Bool-cases (a.free_stack_len == length a.free_stack)) [
        | inl full ↦
            absurd (not_ok free_stack_full (sym (rw (found, own, full, free_with_owner) refl) ∙ h))
        | inr room ↦
            let (even, inside) = find_record-passed frame a index found in
            after index (same (sym (rw (found, own, room, free_with_owner) refl) ∙ h)) even inside
              (ground (arith, v.stack, v.stack_within))
      ]
    ]
