-- ===== src/Scheduler/Preempted.antt =====
-- A preemption: preempt_current_process of kernel/krust/src/ipc/process_syscalls.rs and the switch of
-- kernel/krust/src/ipc/scheduler.rs.
use vertex_os.Base.{
  if◌then◌else◌, ℕ, ◌<◌, ◌≡◌, ◌≢◌, ◌∙◌, refl, sym, ap, subst, inl, inr, Bool, true, false, Option,
  none, some, List, ltb, get_elem?, get_elem?-lt, get_elem?-set_self, get_elem?-set_ne, set,
  position, is_none, Bool-cases, Option-cases, arith,
}
use vertex_os.Frame.{SyscallFrame, from_context}
use vertex_os.Process.{
  running, ready, Process, ProcessTable, live, holds_pid, is_ready, current_process, current_index,
  write_process, next_ready_index_round_robin,
}
use vertex_os.Process.Turns.{Eligible}
use vertex_os.Process.RoundRobin.{next_ready_index_round_robin-Chosen}
use vertex_os.Scheduler.{
  deadline_of, wake_process, wake_timed_processes, frame_of, switch_to, schedule_no_wait,
  ScheduleResult, continue, switched, halt, is_running, saved, preempt_to, preempt_current_process,
  resume_current,
}
use vertex_os.Scheduler.Changed.{
  changed_entry, get_elem?-change_slots, get_elem?-change_slots_beyond,
}
use vertex_os.Scheduler.Pids.{
  SamePids, current_index-SamePids, take-change_slots, take-set_pids, wake_process-pid, Place,
  current_process-Place,
}

-- A switch that the scheduler made.
record Scheduled (include_current : Bool) (now : ℕ) (t : ProcessTable) (frame : SyscallFrame)
    (u : ProcessTable) : Type 0 where
  to : ℕ
  process : Process
  chosen : next_ready_index_round_robin include_current (wake_timed_processes now t).0 ≡ some to
  here : get_elem? (wake_timed_processes now t).0.processes to ≡ some (some process)
  continued : frame ≡ frame_of process
  result : u ≡ switch_to to process (wake_timed_processes now t).0

schedule_no_wait-Scheduled :
    (include_current : Bool) (now : ℕ) (t : ProcessTable) (frame : SyscallFrame) (u : ProcessTable)
    → schedule_no_wait include_current now t ≡ (some frame, u)
    → Scheduled include_current now t frame u
unfolding schedule_no_wait
schedule_no_wait-Scheduled include_current now t frame u h =
    elim (Option-cases (next_ready_index_round_robin include_current woken)) [
      | inl e ↦ absurd (not_some (sym (rw (e, schedule_no_wait) refl) ∙ h))
      | inr (to, e) ↦ elim (Option-cases (get_elem? woken.processes to)) [
        | inl f ↦ absurd (not_some (sym (rw (e, f, schedule_no_wait) refl) ∙ h))
        | inr (slot, f) ↦ at_slot to e slot f
      ]
    ]
  where
    woken : ProcessTable
    woken = (wake_timed_processes now t).0

    not_some : ◌≡◌ {A = Option SyscallFrame × ProcessTable} (none, woken) (some frame, u) → ⊥
    not_some e = cc

    at_slot :
        (to : ℕ)
        → next_ready_index_round_robin include_current woken ≡ some to
        → (slot : Option Process) → get_elem? woken.processes to ≡ some slot
        → Scheduled include_current now t frame u
    at_slot to e none f = absurd (not_some (sym (rw (e, f, schedule_no_wait) refl) ∙ h))
    at_slot to e (some process) f =
        let out : ◌≡◌ {A = Option SyscallFrame × ProcessTable}
            (some (frame_of process), switch_to to process woken) (some frame, u) =
          sym (rw (e, f, schedule_no_wait) refl) ∙ h in
        record {
          to = to;
          process = process;
          chosen = e;
          here = f;
          continued = sym (value out);
          result = sym (ap (λ (r : Option SyscallFrame × ProcessTable). r.1) out);
        }
      where
        value :
            {a : SyscallFrame} {v : ProcessTable}
            → ◌≡◌ {A = Option SyscallFrame × ProcessTable} (some a, v) (some frame, u)
            → a ≡ frame
        value e = cc

wake-SamePids : (now : ℕ) (t : ProcessTable) → SamePids t (wake_timed_processes now t).0
unfolding wake_timed_processes
wake-SamePids now t =
    take-change_slots (wake_process now) t.count t.processes (wake_process-pid now)

current_index-wake :
    (now : ℕ) (t : ProcessTable) → current_index (wake_timed_processes now t).0 ≡ current_index t
unfolding wake_timed_processes
current_index-wake now t =
    current_index-SamePids t (wake_timed_processes now t).0 (wake-SamePids now t) refl

-- What a preemption that switches has found.
record Switch (now later : ℕ) (frame : SyscallFrame) (t : ProcessTable) (next : SyscallFrame)
    (u : ProcessTable) : Type 0 where
  process : Process
  current : current_process (wake_timed_processes now t).0 ≡ some process
  runs : is_running process.state ≡ true
  scheduled :
      Scheduled false later
        (write_process process.pid (saved frame process) (wake_timed_processes now t).0)
        next
        u

preempt_current_process-Switch :
    (now later : ℕ) (frame next : SyscallFrame) (t u : ProcessTable)
    → preempt_current_process now later frame t ≡ (switched, (next, u))
    → Switch now later frame t next u
unfolding preempt_current_process preempt_to
preempt_current_process-Switch now later frame next t u h =
    elim (Bool-cases (is_none (next_ready_index_round_robin false woken))) [
      | inl e ↦
          absurd (not_continue (frame, woken) (sym (rw (e, preempt_current_process) refl) ∙ h))
      | inr e ↦ elim (Option-cases (current_process woken)) [
        | inl f ↦
            absurd (not_halt (frame, woken) (sym (rw (e, f, preempt_current_process) refl) ∙ h))
        | inr (process, f) ↦ elim (Bool-cases (is_running process.state)) [
          | inr g ↦
              absurd
                (not_continue (frame, woken) (sym (rw (e, f, g, preempt_current_process) refl) ∙ h))
          | inl g ↦ record {
            process = process;
            current = f;
            runs = g;
            scheduled =
                go
                  (schedule_no_wait false later
                    (write_process process.pid (saved frame process) woken))
                  refl (sym (rw (e, f, g, preempt_current_process) refl) ∙ h);
          }
        ]
      ]
    ]
  where
    woken : ProcessTable
    woken = (wake_timed_processes now t).0

    not_continue :
        (r : SyscallFrame × ProcessTable)
        → ◌≡◌ {A = ScheduleResult × (SyscallFrame × ProcessTable)}
            (continue, r)
            (switched, (next, u))
        → ⊥
    not_continue r e = cc

    not_halt :
        (r : SyscallFrame × ProcessTable)
        → ◌≡◌ {A = ScheduleResult × (SyscallFrame × ProcessTable)}
            (halt false, r)
            (switched, (next, u))
        → ⊥
    not_halt r e = cc

    go :
        {v : ProcessTable} (r : Option SyscallFrame × ProcessTable)
        → schedule_no_wait false later v ≡ r
        → preempt_to frame r ≡ (switched, (next, u))
        → Scheduled false later v next u
    go {v} (none, w) e f = absurd (not_continue (frame, resume_current w) f)
    go {v} (some a, w) e f =
        let same : (a, w) ≡ (next, u) =
          ap (λ (r : ScheduleResult × (SyscallFrame × ProcessTable)). r.1) f in
        schedule_no_wait-Scheduled false later v next u
          (e ∙ ap (λ (r : SyscallFrame × ProcessTable). (some r.0, r.1)) same)

-- What a preemption does with the process that leaves the processor and with the one that comes.
pub record Preempted (now later : ℕ) (frame : SyscallFrame) (t : ProcessTable) (next : SyscallFrame)
    (u : ProcessTable) : Type 0 where
  pub from : ℕ
  pub to : ℕ
  pub p : Process
  pub q : Process
  -- `from` is the current process, which ran
  pub was_current : current_index t ≡ some from
  pub was : get_elem? (wake_timed_processes now t).0.processes from ≡ some (some p)
  pub was_running : is_running p.state ≡ true
  -- it waits with its frame for its next turn
  pub kept :
      get_elem? u.processes from
      ≡ some (some (record p { state = ready; saved_frame = frame; has_saved_frame = true }))
  -- another, which was ready, runs with its own frame
  pub apart : to ≢ from
  pub was_ready : is_ready q.state ≡ true
  pub before :
      get_elem? (wake_timed_processes later (wake_timed_processes now t).0).0.processes to
      ≡ some (some q)
  pub now_running : get_elem? u.processes to ≡ some (some (record q { state = running }))
  pub becomes : u.current ≡ some q.pid
  pub continued : next ≡ (if q.has_saved_frame then q.saved_frame else from_context q.context)
  -- the others are as they woke
  pub others :
      (i : ℕ)
      → i ≢ from
      → i ≢ to
      → get_elem? u.processes i
        ≡ get_elem? (wake_timed_processes later (wake_timed_processes now t).0).0.processes i

-- A write to the current process is a write to its slot.
pub write_process-Place :
    (t : ProcessTable) (pid : ℕ) (p q : Process) (place : Place pid t.count t.processes p)
    → write_process p.pid q t ≡ record t { processes = set t.processes place.index (some q) }
unfolding write_process
write_process-Place t pid p q place =
    let searched : position (holds_pid p.pid) (live t) ≡ some place.index =
      ap (λ (n : ℕ). position (holds_pid n) (live t)) place.named ∙ place.searched in
    rw (searched, write_process) refl

-- A slot after the loop that wakes depends on that slot before.
wake-slot :
    (now i : ℕ) (t : ProcessTable) (slots : List (Option Process))
    → get_elem? slots i ≡ get_elem? t.processes i
    → get_elem? (wake_timed_processes now (record t { processes = slots })).0.processes i
      ≡ get_elem? (wake_timed_processes now t).0.processes i
unfolding wake_timed_processes
wake-slot now i t slots h = elim (Bool-cases (ltb i t.count)) [
  | inl less ↦
      get_elem?-change_slots (wake_process now) t.count i slots (ground (arith, less))
      ∙ (ap (changed_entry (wake_process now)) h
          ∙ sym (
              get_elem?-change_slots (wake_process now) t.count i t.processes
                (ground (arith, less))))
  | inr least ↦
      get_elem?-change_slots_beyond (wake_process now) t.count i slots (ground (arith, least))
      ∙ (h
          ∙ sym (
              get_elem?-change_slots_beyond (wake_process now) t.count i t.processes
                (ground (arith, least))))
]

-- A saved process is ready, so that it does not wake.
wake-saved :
    (later i : ℕ) (t : ProcessTable) (frame : SyscallFrame) (p : Process)
    → i < t.count
    → get_elem? t.processes i ≡ some (some (saved frame p))
    → get_elem? (wake_timed_processes later t).0.processes i ≡ some (some (saved frame p))
unfolding wake_timed_processes wake_process deadline_of saved
wake-saved later i t frame p inside h =
    get_elem?-change_slots (wake_process later) t.count i t.processes inside
    ∙ ap (changed_entry (wake_process later)) h

-- The process chosen is ready and is not the current one.
chosen-other :
    (t : ProcessTable) (from to : ℕ) (q : Process)
    → current_index t ≡ some from
    → get_elem? t.processes to ≡ some (some q)
    → Eligible false t to
    → (to ≢ from) × (is_ready q.state ≡ true)
chosen-other t from to q current here v = (
  λ g. v.other refl (current ∙ ap some (sym g)),
  ap (λ (p : Process). is_ready p.state) (own (sym here ∙ v.here)) ∙ ap is_ready v.state,
)
  where
    own :
        {a b : Process} → ◌≡◌ {A = Option (Option Process)} (some (some a)) (some (some b)) → a ≡ b
    own e = cc

-- The end of a preemption, from the place of the process that leaves.
switch-Preempted :
    (now later : ℕ) (frame next : SyscallFrame) (t u : ProcessTable) (p : Process) (from : ℕ)
    → from < t.count
    → current_index t ≡ some from
    → get_elem? (wake_timed_processes now t).0.processes from ≡ some (some p)
    → is_running p.state ≡ true
    → Scheduled false later
        (record (wake_timed_processes now t).0 {
          processes = set (wake_timed_processes now t).0.processes from (some (saved frame p));
        })
        next
        u
    → Preempted now later frame t next u
unfolding wake_timed_processes saved switch_to frame_of
switch-Preempted now later frame next t u p from inside current was runs s = record {
  from = from;
  to = s.to;
  p = p;
  q = s.process;
  was_current = current;
  was = was;
  was_running = runs;
  kept =
      ap (λ (v : ProcessTable). get_elem? v.processes from) s.result
      ∙ (get_elem?-set_ne final.processes s.to from _ other.0
          ∙ wake-saved later from left frame p inside (
              get_elem?-set_self woken.processes from _ (get_elem?-lt woken.processes from _ was)));
  apart = other.0;
  was_ready = other.1;
  before = sym (same_slot s.to other.0) ∙ s.here;
  now_running =
      ap (λ (v : ProcessTable). get_elem? v.processes s.to) s.result
      ∙ get_elem?-set_self final.processes s.to _ (get_elem?-lt final.processes s.to _ s.here);
  becomes = ap (λ (v : ProcessTable). v.current) s.result;
  continued = s.continued;
  others = λ i not_from not_to.
      ap (λ (v : ProcessTable). get_elem? v.processes i) s.result
      ∙ (get_elem?-set_ne final.processes s.to i _ (λ e. not_to (sym e)) ∙ same_slot i not_from);
}
  where
    woken : ProcessTable
    woken = (wake_timed_processes now t).0

    left : ProcessTable
    left = record woken { processes = set woken.processes from (some (saved frame p)) }

    final : ProcessTable
    final = (wake_timed_processes later left).0

    same_slot :
        (i : ℕ)
        → i ≢ from
        → get_elem? final.processes i ≡ get_elem? (wake_timed_processes later woken).0.processes i
    same_slot i apart =
        wake-slot later i woken left.processes
          (get_elem?-set_ne woken.processes from i _ (λ e. apart (sym e)))

    still_current : current_index final ≡ some from
    still_current =
        current_index-wake later left
        ∙ (current_index-SamePids woken left
              (take-set_pids t.count from woken.processes p (saved frame p) was refl) refl
            ∙ (current_index-wake now t ∙ current))

    other : (s.to ≢ from) × (is_ready s.process.state ≡ true)
    other =
        chosen-other final from s.to s.process still_current s.here
          (next_ready_index_round_robin-Chosen false final s.to s.chosen).eligible_here

-- A preemption that switches finds the current process running and leaves it ready in its slot
-- with the frame it was interrupted with; the process that it switches to stands in another
-- slot, was ready once the timed processes had woken, is now running and current, and continues
-- with the frame it had saved, or with a fresh frame of its context where it had saved none;
-- every other slot is as it woke.
pub preempt_current_process-Preempted :
    (now later : ℕ) (frame next : SyscallFrame) (t u : ProcessTable)
    → preempt_current_process now later frame t ≡ (switched, (next, u))
    → Preempted now later frame t next u
unfolding wake_timed_processes current_index
preempt_current_process-Preempted now later frame next t u h =
    let s = preempt_current_process-Switch now later frame next t u h in
    let (pid, found) = current_process-Place woken s.process s.current in
    let (at, place) = found in
    switch-Preempted now later frame next t u s.process place.index place.inside
      (sym (current_index-wake now t) ∙ (rw (at, current_index) place.searched)) place.here s.runs
      (subst (λ (v : ProcessTable). Scheduled false later v next u)
        (write_process-Place woken pid s.process (saved frame s.process) place) s.scheduled)
  where
    woken : ProcessTable
    woken = (wake_timed_processes now t).0
