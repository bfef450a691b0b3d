-- ===== src/Process/Added.antt =====
-- A process that add_process enters is found by its identifier, and the others still are:
-- kernel/krust/src/kernel/process_runtime.rs.
use vertex_os.Base.{
  ℕ, suc, ◌+◌, ◌<◌, ◌≤◌, ◌≡◌, ◌≢◌, ◌∙◌, refl, sym, ap, subst, inl, inr, false, Option, none, some,
  List, [], ◌∷◌, ◌++◌, Result, ok, err, ◌==◌, eq→==, length, length-set, set, take, take-set_end,
  find_map, All, Bool-cases, Option-cases, arith,
}
use Prim.Native.String.{String}
use vertex_os.Ids.{ProcessId, InitError, process_table_full}
use vertex_os.Frame.{ProcessContext}
use vertex_os.Capability.{CapabilitySpace}
use vertex_os.Process.{Process, ProcessState, ProcessTable, live, process_if_pid, process}
use vertex_os.Process.Changes.{new_process, add_process}

abbrev pub PidBelow : ℕ → Option Process → Type 0
PidBelow bound none = Unit
PidBelow bound (some process) = process.pid < bound

-- The count is within the slots, and the identifiers in use lie below the next one.
pub record IsProcessTable (t : ProcessTable) : Type 0 where
  pub within : t.count ≤ length t.processes
  pub below : All (PidBelow t.next_id) (live t)

find_map-last-none :
    {A : Type 0} {B : Type 0} (f : A → Option B) (xs : List A) (x : A)
    → f x ≡ none
    → find_map f (xs ++ x ∷ []) ≡ find_map f xs
find_map-last-none f [] x e = rw (e, find_map) refl
find_map-last-none f (y ∷ xs) x e = elim (Option-cases (f y)) [
  | inl miss ↦ rw (miss, find_map) (find_map-last-none f xs x e)
  | inr (b, hit) ↦ rw (hit, find_map) refl
]

-- No process of the list has the identifier of the one behind it.
find-new :
    (bound : ℕ) (slots : List (Option Process)) (p : Process)
    → p.pid ≡ bound
    → All (PidBelow bound) slots
    → find_map (process_if_pid bound) (slots ++ some p ∷ []) ≡ some p
unfolding process_if_pid
find-new bound [] p e below = rw (eq→== p.pid bound e, find_map) refl
find-new bound (none ∷ slots) p e (_, below) = find-new bound slots p e below
find-new bound (some q ∷ slots) p e (here, below) =
    let other : (q.pid == bound) ≡ false = ground arith in
    rw (other, find_map) (find-new bound slots p e below)

All-PidBelow-later :
    (bound : ℕ) (slots : List (Option Process))
    → All (PidBelow bound) slots
    → All (PidBelow (bound + 1)) slots
All-PidBelow-later bound [] below = tt
All-PidBelow-later bound (none ∷ slots) (_, below) = (tt, All-PidBelow-later bound slots below)
All-PidBelow-later bound (some p ∷ slots) (here, below) =
    (omega arith, All-PidBelow-later bound slots below)

All-PidBelow-append :
    (bound : ℕ) (xs ys : List (Option Process))
    → All (PidBelow bound) xs
    → All (PidBelow bound) ys
    → All (PidBelow bound) (xs ++ ys)
All-PidBelow-append bound [] ys below more = more
All-PidBelow-append bound (x ∷ xs) ys (here, below) more =
    (here, All-PidBelow-append bound xs ys below more)

abbrev with_process : Process → ProcessTable → ProcessTable
with_process p t = record t {
  processes = set t.processes t.count (some p);
  count = t.count + 1;
  next_id = t.next_id + 1;
}

live-with_process :
    (p : Process) (t : ProcessTable)
    → t.count < length t.processes
    → live (with_process p t) ≡ live t ++ some p ∷ []
live-with_process p t h =
    let next : t.count + 1 ≡ suc t.count = omega arith in
    ap (λ (n : ℕ). take n (set t.processes t.count (some p))) next
    ∙ take-set_end t.processes t.count (some p) h

with_process-IsProcessTable :
    (p : Process) (t : ProcessTable)
    → p.pid ≡ t.next_id
    → t.count < length t.processes
    → IsProcessTable t
    → IsProcessTable (with_process p t)
with_process-IsProcessTable p t e h v = record {
  within = omega (arith, length-set t.processes t.count (some p));
  below = subst (All (PidBelow (t.next_id + 1))) (sym (live-with_process p t h)) (
      All-PidBelow-append (t.next_id + 1) (live t) (some p ∷ [])
        (All-PidBelow-later t.next_id (live t) v.below) (omega arith, tt));
}

process-with_process :
    (p : Process) (t : ProcessTable) (other : ProcessId)
    → p.pid ≡ t.next_id
    → t.count < length t.processes
    → IsProcessTable t
    → other ≢ t.next_id
    → (process t.next_id (with_process p t) ≡ some p)
      × (process other (with_process p t) ≡ process other t)
unfolding process process_if_pid
process-with_process p t other e h v differs =
    let slots = live-with_process p t h in
    let missed : (p.pid == other) ≡ false = ground arith in
    (
      ap (find_map (process_if_pid t.next_id)) slots ∙ find-new t.next_id (live t) p e v.below,
      ap (find_map (process_if_pid other)) slots
          ∙ find_map-last-none (process_if_pid other) (live t) (some p) (rw missed refl),
    )

-- Where the count is within the slots and the live identifiers lie below the next one, and
-- `add_process` succeeds: the new process is found under its identifier, a lookup by another
-- identifier gives what it gave, and the table keeps these two conditions.
pub process-add_process :
    (name : String) (context : ProcessContext) (state : ProcessState) (caps : CapabilitySpace)
    (t : ProcessTable) (r : ProcessId × ProcessTable) (other : ProcessId)
    → IsProcessTable t
    → add_process name context state caps t ≡ ok r
    → other ≢ r.0
    → (process r.0 r.1 ≡ some (new_process r.0 name context state caps))
      × (process other r.1 ≡ process other t)
      × IsProcessTable r.1
unfolding add_process new_process
process-add_process name context state caps t r other v h differs =
    elim (Bool-cases (t.count == length t.processes)) [
      | inl full ↦ absurd (not_ok (sym (rw (full, add_process) refl) ∙ h))
      | inr room ↦
          go (same (sym (rw (room, add_process) refl) ∙ h)) (omega (arith, v.within, distinct room))
    ]
  where
    p : Process
    p = new_process t.next_id name context state caps

    not_ok :
        ◌≡◌ {A = Result InitError (ProcessId × ProcessTable)} (err process_table_full) (ok r) → ⊥
    not_ok e = cc

    same :
        {q : ProcessId × ProcessTable}
        → ◌≡◌ {A = Result InitError (ProcessId × ProcessTable)} (ok q) (ok r)
        → q ≡ r
    same e = cc

    distinct : (t.count == length t.processes) ≡ false → t.count ≢ length t.processes
    distinct room = ground (arith, room)

    go :
        ◌≡◌ {A = ProcessId × ProcessTable} (t.next_id, with_process p t) r
        → t.count < length t.processes
        → (process r.0 r.1 ≡ some (new_process r.0 name context state caps))
          × (process other r.1 ≡ process other t)
          × IsProcessTable r.1
    go e h =
        let (found, kept) =
          process-with_process p t other refl h v
            (λ s. differs (s ∙ ap (λ (q : ProcessId × ProcessTable). q.0) e)) in
        subst
          (λ (q : ProcessId × ProcessTable).
            (process q.0 q.1 ≡ some (new_process q.0 name context state caps))
            × (process other q.1 ≡ process other t)
            × IsProcessTable q.1)
          e (found, kept, with_process-IsProcessTable p t refl h v)
