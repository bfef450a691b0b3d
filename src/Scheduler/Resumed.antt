-- ===== src/Scheduler/Resumed.antt =====
-- A receiver that cancel_blocked_endpoint_waiter_at resumes and the others: scheduler.rs of
-- kernel/krust/src/ipc.
use vertex_os.Base.{
  ℕ, ◌<◌, ◌≡◌, ◌≢◌, ◌∙◌, refl, sym, inl, inr, true, false, Option, none, some, get_elem?,
  get_elem?-lt, get_elem?-set_self, get_elem?-set_ne, set, Option-cases,
}
use vertex_os.Base.Prefix.{All-take_get, All-take-set}
use vertex_os.Ids.{KernelObjectId}
use vertex_os.Process.{Process}
use vertex_os.Runtime.{RuntimeState, parent_in_process}
use vertex_os.Runtime.Ancestors.{IsDescending, ProcessDescends}
use vertex_os.Scheduler.{resume}
use vertex_os.Scheduler.Waiters.{
  waits_for, should_cancel, cancel_blocked_endpoint_waiter_at, should_cancel_at,
}
use vertex_os.Scheduler.Authority.{set-SameParents, should_cancel-same}

-- The slot holds a process that waits as a receiver.
pub record WaitsAt (index : ℕ) (s : RuntimeState) : Type 0 where
  pub process : Process
  pub here : get_elem? s.processes.processes index ≡ some (some process)
  pub waiting : KernelObjectId × ℕ
  pub waits : waits_for process.state ≡ some waiting

pub should_cancel_at-WaitsAt :
    (index : ℕ) (s : RuntimeState) → should_cancel_at index s ≡ some true → WaitsAt index s
unfolding should_cancel_at should_cancel
should_cancel_at-WaitsAt index s h = elim (Option-cases (get_elem? s.processes.processes index)) [
  | inl e ↦ absurd (false_true (sym (rw (e, should_cancel_at) refl) ∙ h))
  | inr (slot, e) ↦ go slot e
]
  where
    false_true : some false ≡ some true → ⊥
    false_true e = cc

    go :
        (slot : Option Process)
        → get_elem? s.processes.processes index ≡ some slot
        → WaitsAt index s
    go none e = absurd (false_true (sym (rw (e, should_cancel_at) refl) ∙ h))
    go (some p) e = elim (Option-cases (waits_for p.state)) [
      | inl f ↦ absurd (false_true (sym (rw (e, f, should_cancel, should_cancel_at) refl) ∙ h))
      | inr (w, f) ↦ record { process = p; here = e; waiting = w; waits = f }
    ]

-- The state with the receiver of a slot resumed.
abbrev pub resumed : ℕ → ℕ → Process → RuntimeState → RuntimeState
resumed index status p s = record s {
  processes = record s.processes {
    processes = set s.processes.processes index (some (resume status p));
  };
}

pub cancel-WaitsAt :
    (index status : ℕ) (s : RuntimeState) (w : WaitsAt index s)
    → cancel_blocked_endpoint_waiter_at index status s ≡ (true, resumed index status w.process s)
unfolding cancel_blocked_endpoint_waiter_at
cancel-WaitsAt index status s w = rw (w.here, w.waits, cancel_blocked_endpoint_waiter_at) refl

pub resumed-IsDescending :
    (index status : ℕ) (p : Process) (s : RuntimeState)
    → index < s.processes.count
    → get_elem? s.processes.processes index ≡ some (some p)
    → IsDescending s
    → IsDescending (resumed index status p s)
unfolding resume
resumed-IsDescending index status p s inside here d = record {
  entries = d.entries;
  slots =
      All-take-set ProcessDescends s.processes.processes s.processes.count index
        (some (resume status p)) d.slots
        (All-take_get ProcessDescends s.processes.processes s.processes.count index (some p) d.slots
          inside here);
}

-- The resumed receiver waits for nothing.
pub should_cancel_at-resumed :
    (index status : ℕ) (p : Process) (s : RuntimeState)
    → get_elem? s.processes.processes index ≡ some (some p)
    → should_cancel_at index (resumed index status p s) ≡ some false
unfolding should_cancel_at should_cancel waits_for resume
should_cancel_at-resumed index status p s here =
    rw
      (
        get_elem?-set_self s.processes.processes index (some (resume status p))
            (get_elem?-lt s.processes.processes index (some p) here),
        should_cancel_at,
      )
      refl

-- The others keep what they had.
pub should_cancel_at-other :
    (i index status : ℕ) (p : Process) (s : RuntimeState)
    → get_elem? s.processes.processes index ≡ some (some p)
    → index ≢ i
    → should_cancel_at i (resumed index status p s) ≡ should_cancel_at i s
unfolding should_cancel_at parent_in_process resume
should_cancel_at-other i index status p s here apart = go (get_elem? s.processes.processes i) refl
  where
    same_slot :
        get_elem? (resumed index status p s).processes.processes i
        ≡ get_elem? s.processes.processes i
    same_slot = get_elem?-set_ne s.processes.processes index i (some (resume status p)) apart

    go :
        (o : Option (Option Process))
        → get_elem? s.processes.processes i ≡ o
        → should_cancel_at i (resumed index status p s) ≡ should_cancel_at i s
    go none e = rw (same_slot ∙ e, e, should_cancel_at) refl
    go (some none) e = rw (same_slot ∙ e, e, should_cancel_at) refl
    go (some (some q)) e =
        rw (same_slot ∙ e, e, should_cancel_at)
          (should_cancel-same s (set s.processes.processes index (some (resume status p)))
            (set-SameParents s index p (resume status p) here (λ id. refl)) q)
