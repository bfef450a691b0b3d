-- ===== src/Scheduler/Pids.antt =====
-- The loops of the scheduler leave every process its identifier: kernel/krust/src/ipc/scheduler.rs
-- and process_mut of kernel/krust/src/kernel/process_runtime.rs.
use vertex_os.Base.{
  ℕ, zero, suc, ◌<◌, ◌≡◌, ◌∙◌, refl, sym, ap, inl, inr, Bool, false, Option, none, some, List, [],
  ◌∷◌, map, ◌==◌, ==→eq, get_elem?, set, take, position, find_map, Bool-cases, Option-cases, arith,
}
use vertex_os.Ids.{ProcessId}
use vertex_os.Process.{
  Process, ProcessTable, live, holds_pid, process_if_pid, process, current_process, current_index,
}
use vertex_os.Scheduler.{
  change_one, change_slots, resume, deadline_of, deadline_reached, wake_process, wake_status,
}

abbrev pub slot_pid : Option Process → Option ℕ
slot_pid none = none
slot_pid (some process) = some process.pid

abbrev is_pid : ProcessId → Option ℕ → Bool
is_pid pid none = false
is_pid pid (some other) = other == pid

position-pids :
    (pid : ProcessId) (slots : List (Option Process))
    → position (holds_pid pid) slots ≡ position (is_pid pid) (map slot_pid slots)
unfolding holds_pid
position-pids pid [] = refl
position-pids pid (none ∷ slots) = rw (position-pids pid slots) refl
position-pids pid (some p ∷ slots) = rw (position-pids pid slots) refl

-- The slots of the table hold the same identifiers.
abbrev pub SamePids : ProcessTable → ProcessTable → Type 0
SamePids t u = map slot_pid (live u) ≡ map slot_pid (live t)

pub current_index-SamePids :
    (t u : ProcessTable) → SamePids t u → u.current ≡ t.current → current_index u ≡ current_index t
unfolding current_index
current_index-SamePids t u same at = elim (Option-cases t.current) [
  | inl e ↦ rw (at ∙ e, e, current_index) refl
  | inr (pid, e) ↦
      rw (at ∙ e, e, current_index)
        (position-pids pid (live u)
          ∙ (ap (position (is_pid pid)) same ∙ sym (position-pids pid (live t))))
]

change_one-pids :
    (o : Option Process) (process : Process) (n : ℕ) (rest : List (Option Process) × ℕ)
    → ((q : Process) → o ≡ some q → q.pid ≡ process.pid)
    → map slot_pid (take (suc n) (change_one o process rest).0)
      ≡ some process.pid ∷ map slot_pid (take n rest.0)
unfolding change_one
change_one-pids none process n rest h = refl
change_one-pids (some changed) process n rest h = rw (h changed refl) refl

pub take-change_slots :
    (f : Process → Option Process) (n : ℕ) (slots : List (Option Process))
    → ((p q : Process) → f p ≡ some q → q.pid ≡ p.pid)
    → map slot_pid (take n (change_slots f n slots).0) ≡ map slot_pid (take n slots)
unfolding change_slots
take-change_slots f zero slots h = refl
take-change_slots f (suc n) [] h = refl
take-change_slots f (suc n) (none ∷ slots) h = rw (take-change_slots f n slots h) refl
take-change_slots f (suc n) (some p ∷ slots) h =
    change_one-pids (f p) p n (change_slots f n slots) (h p)
    ∙ ap (◌∷◌ (some p.pid)) (take-change_slots f n slots h)

pub take-set_pids :
    (n i : ℕ) (slots : List (Option Process)) (p q : Process)
    → get_elem? slots i ≡ some (some p)
    → q.pid ≡ p.pid
    → map slot_pid (take n (set slots i (some q))) ≡ map slot_pid (take n slots)
take-set_pids zero i slots p q at same = refl
take-set_pids (suc n) i [] p q at same = refl
take-set_pids (suc n) zero (x ∷ slots) p q at same = rw (sym (slot_of at)) (rw same refl)
  where
    slot_of : {a b : Option Process} → ◌≡◌ {A = Option (Option Process)} (some a) (some b) → b ≡ a
    slot_of e = cc
take-set_pids (suc n) (suc i) (x ∷ slots) p q at same =
    rw (take-set_pids n i slots p q at same) refl

pub wake_process-pid : (now : ℕ) (p q : Process) → wake_process now p ≡ some q → q.pid ≡ p.pid
unfolding wake_process resume
wake_process-pid now p q h = elim (Option-cases (deadline_of p.state)) [
  | inl e ↦ absurd (none_some (sym (rw (e, wake_process) refl) ∙ h))
  | inr (deadline, e) ↦ elim (Bool-cases (deadline_reached now deadline)) [
    | inr f ↦ absurd (none_some (sym (rw (e, f, wake_process) refl) ∙ h))
    | inl f ↦ go (resume (wake_status p.state) p) refl (sym (rw (e, f, wake_process) refl) ∙ h)
  ]
]
  where
    none_some : ◌≡◌ {A = Option Process} none (some q) → ⊥
    none_some e = cc

    go : (r : Process) → r.pid ≡ p.pid → some r ≡ some q → q.pid ≡ p.pid
    go r same e = let state : r ≡ q = cc in sym (ap (λ (p : Process). p.pid) state) ∙ same

-- Where a lookup by identifier finds a process.
pub record Place (pid : ProcessId) (n : ℕ) (slots : List (Option Process)) (p : Process)
    : Type 0 where
  pub index : ℕ
  pub inside : index < n
  pub searched : position (holds_pid pid) (take n slots) ≡ some index
  pub here : get_elem? slots index ≡ some (some p)
  pub named : p.pid ≡ pid

Place-later :
    (pid : ProcessId) (n : ℕ) (slot : Option Process) (slots : List (Option Process)) (p : Process)
    → holds_pid pid slot ≡ false
    → Place pid n slots p
    → Place pid (suc n) (slot ∷ slots) p
Place-later pid n slot slots p miss w = record {
  index = suc w.index;
  inside = omega (arith, w.inside);
  searched = rw (miss, w.searched, position) refl;
  here = w.here;
  named = w.named;
}

find-Place :
    (pid : ProcessId) (n : ℕ) (slots : List (Option Process)) (p : Process)
    → find_map (process_if_pid pid) (take n slots) ≡ some p
    → Place pid n slots p
unfolding holds_pid process_if_pid
find-Place pid zero slots p h = cc
find-Place pid (suc n) [] p h = cc
find-Place pid (suc n) (none ∷ slots) p h =
    Place-later pid n none slots p refl (find-Place pid n slots p h)
find-Place pid (suc n) (some q ∷ slots) p h = elim (Bool-cases (q.pid == pid)) [
  | inl hit ↦
      let same : some q ≡ some p = sym (rw (hit, find_map) refl) ∙ h in
      record {
        index = 0;
        inside = omega arith;
        searched = rw (hit, position) refl;
        here = ap some same;
        named = sym (pid_of same) ∙ ==→eq q.pid pid hit;
      }
  | inr miss ↦
      Place-later pid n (some q) slots p miss
        (find-Place pid n slots p (sym (rw (miss, find_map) refl) ∙ h))
]
  where
    pid_of : {a b : Process} → some a ≡ some b → a.pid ≡ b.pid
    pid_of e = cc

-- Where the current process stands.
pub current_process-Place :
    (t : ProcessTable) (p : Process)
    → current_process t ≡ some p
    → (pid : ProcessId) × ((t.current ≡ some pid) × Place pid t.count t.processes p)
unfolding current_process process
current_process-Place t p h = elim (Option-cases t.current) [
  | inl e ↦ absurd (none_some (sym (rw (e, current_process) refl) ∙ h))
  | inr (pid, e) ↦
      (pid, (e, find-Place pid t.count t.processes p (sym (rw (e, current_process) refl) ∙ h)))
]
  where
    none_some : none ≡ some p → ⊥
    none_some e = cc
