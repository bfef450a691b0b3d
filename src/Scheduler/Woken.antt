-- ===== src/Scheduler/Woken.antt =====
-- Processes that wake at their deadline: wake_timed_processes of kernel/krust/src/ipc/scheduler.rs.
use vertex_os.Base.{
  ◌+◌, ◌-◌, ◌%◌, ◌^◌, subst, ltb→lt, lt→ltb, ℕ, ◌≤◌, ◌<◌, ◌≡◌, ◌∙◌, refl, sym, ap, inl, inr, true,
  false, Option, none, some, List, get_elem?, Option-cases, Bool-cases,
}
use vertex_os.Process.{
  Process, ProcessTable, ProcessState, empty, declared, ready, running, exited, blocked_on_endpoint,
  blocked_on_interrupt, blocked_on_vfs_read, blocked_on_vfs_state, blocked_on_vertex_fs_sync,
  blocked_on_network_port, sleeping,
}
use vertex_os.Scheduler.{
  deadline_of, deadline_reached, wake_status, resume, wake_process, wake_timed_processes,
}
use vertex_os.Scheduler.Changed.{
  changed_slot, get_elem?-change_slots, get_elem?-change_slots_beyond, change_slots-twice,
}

-- A process that woke waits for nothing.
wake_process-settled :
    (now : ℕ) (p q : Process) → wake_process now p ≡ some q → wake_process now q ≡ none
unfolding wake_process resume deadline_of
wake_process-settled now p q h = elim (Option-cases (deadline_of p.state)) [
  | inl e ↦ absurd (none_some (sym (rw (e, wake_process) refl) ∙ h))
  | inr (deadline, e) ↦ elim (Bool-cases (deadline_reached now deadline)) [
    | inr f ↦ absurd (none_some (sym (rw (e, f, wake_process) refl) ∙ h))
    | inl f ↦ go (resume (wake_status p.state) p) refl (sym (rw (e, f, wake_process) refl) ∙ h)
  ]
]
  where
    none_some : ◌≡◌ {A = Option Process} none (some q) → ⊥
    none_some e = cc

    go : (r : Process) → r.state ≡ ready → some r ≡ some q → wake_process now q ≡ none
    go r is_ready e =
        let same : r ≡ q = cc in
        let state : q.state ≡ ready = sym (ap (λ (p : Process). p.state) same) ∙ is_ready in
        rw (state, wake_process) refl

wake-twice :
    (now : ℕ) (t : ProcessTable)
    → wake_timed_processes now (wake_timed_processes now t).0 ≡ ((wake_timed_processes now t).0, 0)
unfolding wake_timed_processes
wake-twice now t =
    ap (λ (r : List (Option Process) × ℕ). (record t { processes = r.0 }, r.1))
      (change_slots-twice (wake_process now) t.count t.processes (wake_process-settled now))

same_number : {a b : ℕ} → some a ≡ some b → a ≡ b
same_number e = cc

-- The tests of the loop.
record Tested (now : ℕ) (p : Process) : Type 0 where
  deadline : ℕ
  waits : deadline_of p.state ≡ some deadline
  reached : deadline_reached now deadline ≡ true

-- What the loop makes of the outcome of its tests.
record Changed (now : ℕ) (p q : Process) : Type 0 where
  when_due :
      Tested now p
      → q ≡ record p {
        state = ready;
        saved_frame = record p.saved_frame { rax = wake_status p.state };
      }
  otherwise : (Tested now p → ⊥) → q ≡ p

changed_slot-Changed :
    (now : ℕ) (p : Process)
    → (q : Process) × ((changed_slot (wake_process now) (some p) ≡ some q) × Changed now p q)
unfolding wake_process resume
changed_slot-Changed now p = elim (Option-cases (deadline_of p.state)) [
  | inl e ↦ (
    p,
    (
      rw (e, wake_process, changed_slot) refl,
      record { when_due = λ due. absurd (none_some (sym e ∙ due.waits)); otherwise = λ idle. refl },
    ),
  )
  | inr (deadline, e) ↦ elim (Bool-cases (deadline_reached now deadline)) [
    | inl f ↦ (
      resume (wake_status p.state) p,
      (
        rw (e, f, wake_process, changed_slot) refl,
        record {
          when_due = λ due. refl;
          otherwise =
              λ idle. absurd (idle (record { deadline = deadline; waits = e; reached = f }));
        },
      ),
    )
    | inr f ↦ (
      p,
      (
        rw (e, f, wake_process, changed_slot) refl,
        record {
          when_due = λ due. absurd (differ due.deadline (sym e ∙ due.waits) due.reached f);
          otherwise = λ idle. refl;
        },
      ),
    )
  ]
]
  where
    none_some : {d : ℕ} → none ≡ some d → ⊥
    none_some e = cc

    differ :
        {d : ℕ} (d' : ℕ)
        → some d ≡ some d'
        → deadline_reached now d' ≡ true
        → deadline_reached now d ≡ false
        → ⊥
    differ d' e f g = cc

-- The reading of the clock is at the deadline or behind it, by their wrapped distance.
abbrev pub Reached : ℕ → ℕ → Type 0
Reached now deadline = (now + (2 ^ 64 - deadline)) % 2 ^ 64 < 2 ^ 63

-- A process waits in the state for a deadline that is reached, and wakes with the status: 0 after a
-- sleep, and 2^64 - 10 where a receive or the wait for an interrupt has timed out.
pub data Due (now : ℕ) : ProcessState → ℕ → Type 0 where
  slept : (wake_tsc : ℕ) → Reached now wake_tsc → Due now (sleeping wake_tsc) 0
  timed_out_receive :
      (endpoint cap_id destination max_len timeout : ℕ)
      → Reached now timeout
      → Due now
          (blocked_on_endpoint endpoint cap_id destination max_len (some timeout))
          (2 ^ 64 - 10)
  timed_out_interrupt :
      (interrupt timeout : ℕ)
      → Reached now timeout
      → Due now (blocked_on_interrupt interrupt (some timeout)) (2 ^ 64 - 10)

-- A process after the loop.
pub record Woken (now : ℕ) (p q : Process) : Type 0 where
  pub when_due :
      (status : ℕ)
      → Due now p.state status
      → q ≡ record p { state = ready; saved_frame = record p.saved_frame { rax = status } }
  pub otherwise : ((status : ℕ) → Due now p.state status → ⊥) → q ≡ p

window-Reached : (now d : ℕ) → deadline_reached now d ≡ true → Reached now d
unfolding deadline_reached
window-Reached now d h = ltb→lt ((now + (2 ^ 64 - d)) % 2 ^ 64) (2 ^ 63) h

Reached-window : (now d : ℕ) → Reached now d → deadline_reached now d ≡ true
unfolding deadline_reached
Reached-window now d h = lt→ltb ((now + (2 ^ 64 - d)) % 2 ^ 64) (2 ^ 63) h

tested-Due :
    (now : ℕ) (state : ProcessState) (d : ℕ)
    → deadline_of state ≡ some d
    → deadline_reached now d ≡ true
    → Due now state (wake_status state)
unfolding deadline_of wake_status
tested-Due now empty d e f = cc
tested-Due now declared d e f = cc
tested-Due now ready d e f = cc
tested-Due now running d e f = cc
tested-Due now exited d e f = cc
tested-Due now (blocked_on_endpoint _ _ _ _ none) d e f = cc
tested-Due now (blocked_on_endpoint endpoint cap_id destination max_len (some timeout)) d e f =
    timed_out_receive endpoint cap_id destination max_len timeout (
      window-Reached now timeout
        (subst (λ (n : ℕ). deadline_reached now n ≡ true) (same_number (sym e)) f))
tested-Due now (blocked_on_interrupt _ none) d e f = cc
tested-Due now (blocked_on_interrupt interrupt (some timeout)) d e f =
    timed_out_interrupt interrupt timeout (
      window-Reached now timeout
        (subst (λ (n : ℕ). deadline_reached now n ≡ true) (same_number (sym e)) f))
tested-Due now (blocked_on_vfs_read _ _ _ _) d e f = cc
tested-Due now (blocked_on_vfs_state _ _ _ _ _ _ _ _ _ _) d e f = cc
tested-Due now (blocked_on_vertex_fs_sync _ _ _ _ _ _ _ _) d e f = cc
tested-Due now (blocked_on_network_port _ _ _) d e f = cc
tested-Due now (sleeping wake_tsc) d e f = slept wake_tsc (
    window-Reached now wake_tsc
      (subst (λ (n : ℕ). deadline_reached now n ≡ true) (same_number (sym e)) f))

Due-tested :
    (now : ℕ) (state : ProcessState) (status : ℕ)
    → Due now state status
    → (d : ℕ) × ((deadline_of state ≡ some d)
        × (deadline_reached now d ≡ true)
        × (wake_status state ≡ status))
unfolding deadline_of wake_status
Due-tested now state status (slept d h) = (d, (refl, Reached-window now d h, refl))
Due-tested now state status (timed_out_receive _ _ _ _ d h) =
    (d, (refl, Reached-window now d h, refl))
Due-tested now state status (timed_out_interrupt _ d h) = (d, (refl, Reached-window now d h, refl))

Changed-Woken : (now : ℕ) (p q : Process) → Changed now p q → Woken now p q
Changed-Woken now p q c = record {
  when_due = λ status due.
      let (d, tested) = Due-tested now p.state status due in
      c.when_due (record { deadline = d; waits = tested.0; reached = tested.1 })
      ∙ ap (λ (n : ℕ). record p { state = ready; saved_frame = record p.saved_frame { rax = n } })
          tested.2;
  otherwise = λ idle. c.otherwise (λ tested.
      idle (wake_status p.state)
        (tested-Due now p.state tested.deadline tested.waits tested.reached));
}

-- In a slot below the count, a process whose deadline is reached becomes ready with the status
-- of its wait (ok after a sleep, a timeout after a receive or an interrupt), and any other
-- process stays as it was; a process in a slot beyond the count stays as it was.
pub wake_timed_processes-Woken :
    (now i : ℕ) (p : Process) (t : ProcessTable)
    → get_elem? t.processes i ≡ some (some p)
    → ((i < t.count)
        → (q : Process) × ((get_elem? (wake_timed_processes now t).0.processes i ≡ some (some q))
            × Woken now p q))
      × ((t.count ≤ i) → get_elem? (wake_timed_processes now t).0.processes i ≡ some (some p))
unfolding wake_timed_processes
wake_timed_processes-Woken now i p t at = (
  λ inside.
      let (q, r) = changed_slot-Changed now p in
      let (e, w) = r in
      (
        q,
        (
          get_elem?-change_slots (wake_process now) t.count i t.processes inside
              ∙ rw at (ap some e),
          Changed-Woken now p q w,
        ),
      ),
  λ beyond. get_elem?-change_slots_beyond (wake_process now) t.count i t.processes beyond ∙ at,
)

-- A process that has a slot after the loop had one before.
slot_before :
    (now i : ℕ) (p : Process) (t : ProcessTable)
    → i < t.count
    → get_elem? (wake_timed_processes now t).0.processes i ≡ some (some p)
    → get_elem? (wake_timed_processes now (wake_timed_processes now t).0).0.processes i
      ≡ some (some p)
slot_before now i p t inside at =
    ap (λ (r : ProcessTable × ℕ). get_elem? r.0.processes i) (wake-twice now t) ∙ at

-- After the loop no process in a slot below the count waits for a deadline that is reached, and
-- the loop run again at the same reading of the clock changes nothing and counts none.
pub wake_timed_processes-settles :
    (now : ℕ) (t : ProcessTable)
    → ((i status : ℕ) (p : Process)
        → i < t.count
        → get_elem? (wake_timed_processes now t).0.processes i ≡ some (some p)
        → Due now p.state status
        → ⊥)
      × (wake_timed_processes now (wake_timed_processes now t).0
          ≡ ((wake_timed_processes now t).0, 0))
unfolding wake_timed_processes
wake_timed_processes-settles now t = (nobody, wake-twice now t)
  where
    not_ready : (status : ℕ) → Due now ready status → ⊥
    not_ready status due = elim due [ ]

    nobody :
        (i status : ℕ) (p : Process)
        → i < t.count
        → get_elem? (wake_timed_processes now t).0.processes i ≡ some (some p)
        → Due now p.state status
        → ⊥
    nobody i status p inside at due =
        let (q, r) =
          (wake_timed_processes-Woken now i p (wake_timed_processes now t).0 at).0 inside in
        let same : p ≡ q = own (sym (slot_before now i p t inside at) ∙ r.0) in
        let state : p.state ≡ ready =
          ap (λ (x : Process). x.state) same
          ∙ ap (λ (x : Process). x.state) (r.1.when_due status due) in
        not_ready status (subst (λ (x : ProcessState). Due now x status) state due)
      where
        own :
            {a b : Process}
            → ◌≡◌ {A = Option (Option Process)} (some (some a)) (some (some b))
            → a ≡ b
        own e = cc
