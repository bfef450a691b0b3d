-- ===== src/Scheduler/Tests.antt =====
-- A table in which one process runs, another sleeps and a third waits for an interrupt.
use vertex_os.Base.{
  ℕ, ◌≡◌, ◌≤◌, ◌<◌, ◌∙◌, refl, sym, ap, subst, true, none, some, [], ◌∷◌, get_elem?, arith,
}
use vertex_os.Frame.{SyscallFrame, empty_frame, from_context}
use vertex_os.Process.{
  ProcessState, running, sleeping, blocked_on_endpoint, blocked_on_interrupt, Process, ProcessTable,
  holds_pid, process_if_pid, process, current_process, current_index, write_process, is_ready_at,
  search_ready, search_start, next_ready_index_round_robin,
}
use vertex_os.Scheduler.{
  deadline_reached, resume, change_one, change_slots, deadline_of, wake_status, wake_process,
  wake_timed_processes, next_deadline_tsc, frame_of, switch_to, schedule_no_wait, ScheduleResult,
  switched, saved, preempt_to, preempt_current_process,
}
use vertex_os.ObjectTable.Table.{new_table}
use vertex_os.Runtime.{RuntimeState}
use vertex_os.Scheduler.Canceled.{Canceled, cancel_unauthorized_blocked_receivers-Canceled}
use vertex_os.Scheduler.Woken.{Due, Woken, wake_timed_processes-settles, wake_timed_processes-Woken}
use vertex_os.Scheduler.Deadlines.{
  InWindow, SlotInWindow, NextDeadline, next_deadline_tsc-NextDeadline,
}
use vertex_os.Scheduler.Preempted.{Preempted, preempt_current_process-Preempted}

abbrev idle_frame : SyscallFrame
unfolding empty_frame
idle_frame = empty_frame

abbrev process_in : ℕ → ProcessState → Process
process_in pid state = record {
  pid = pid;
  name = "p";
  state = state;
  context = record { cr3 = 1; entry = 2; stack_top = 3 };
  caps = record { caps = [] };
  initial_caps = record { caps = [] };
  file_handles = [];
  saved_frame = idle_frame;
  has_saved_frame = true;
}

abbrev three : ProcessTable
three = record {
  processes =
      some (process_in 1 running)
      ∷ some (process_in 2 (sleeping 100))
      ∷ some (process_in 3 (blocked_on_interrupt 7 (some 200)))
      ∷ none
      ∷ [];
  count = 3;
  current = some 1;
  next_id = 4;
}

wake_timed_processes-settles_example :
    ((i status : ℕ) (p : Process)
      → i < 3
      → get_elem? (wake_timed_processes 150 three).0.processes i ≡ some (some p)
      → Due 150 p.state status
      → ⊥)
    × (wake_timed_processes 150 (wake_timed_processes 150 three).0
        ≡ ((wake_timed_processes 150 three).0, 0))
wake_timed_processes-settles_example = wake_timed_processes-settles 150 three

wake_timed_processes-Woken_example :
    ((1 < 3)
      → (q : Process) × ((get_elem? (wake_timed_processes 150 three).0.processes 1 ≡ some (some q))
          × Woken 150 (process_in 2 (sleeping 100)) q))
    × ((3 ≤ 1)
        → get_elem? (wake_timed_processes 150 three).0.processes 1
          ≡ some (some (process_in 2 (sleeping 100))))
wake_timed_processes-Woken_example =
    wake_timed_processes-Woken 150 1 (process_in 2 (sleeping 100)) three refl

same_process : {a b : Process} → some a ≡ some b → a ≡ b
same_process e = cc

same_deadline : {a b : ℕ} → some a ≡ some b → a ≡ b
same_deadline e = cc

in_window :
    (p : Process) (d : ℕ) → deadline_of p.state ≡ some d → InWindow 0 d → SlotInWindow 0 (some p)
in_window p d e v other w =
    window_of
      (same_deadline
        (sym e ∙ (ap (λ (q : Process). deadline_of q.state) (same_process w.here) ∙ w.waits)))
      v
  where
    window_of : {a b : ℕ} → a ≡ b → InWindow 0 a → InWindow 0 b
    window_of f i = subst (InWindow 0) f i

no_deadline : (p : Process) → deadline_of p.state ≡ none → SlotInWindow 0 (some p)
no_deadline p e other w =
    absurd
      (differ (sym e ∙ (ap (λ (q : Process). deadline_of q.state) (same_process w.here) ∙ w.waits)))
  where
    differ : none ≡ some other → ⊥
    differ f = cc

next_deadline_tsc-NextDeadline_example : NextDeadline three (next_deadline_tsc three)
unfolding deadline_of
next_deadline_tsc-NextDeadline_example = next_deadline_tsc-NextDeadline 0 three (
  no_deadline (process_in 1 running) refl,
  (
    in_window (process_in 2 (sleeping 100)) 100 refl (omega arith, omega arith, omega arith),
    (
      in_window (process_in 3 (blocked_on_interrupt 7 (some 200))) 200 refl
          (omega arith, omega arith, omega arith),
      tt,
    ),
  ),
)

abbrev user_frame : SyscallFrame
user_frame = record idle_frame { rax = 5; user_rip = 77 }

preempted : ScheduleResult × (SyscallFrame × ProcessTable)
unfolding deadline_reached resume change_one change_slots deadline_of wake_status wake_process
    wake_timed_processes frame_of switch_to schedule_no_wait saved preempt_to
    preempt_current_process from_context holds_pid process_if_pid process current_process
    current_index write_process is_ready_at search_ready search_start next_ready_index_round_robin
preempted = preempt_current_process 150 160 user_frame three

preempted_switched : preempted.0 ≡ switched
unfolding preempted
preempted_switched = refl

preempt_current_process-Preempted_example :
    Preempted 150 160 user_frame three preempted.1.0 preempted.1.1
unfolding preempted
preempt_current_process-Preempted_example =
    preempt_current_process-Preempted 150 160 user_frame preempted.1.0 three preempted.1.1 refl

-- The second process waits on an endpoint that is gone.
abbrev gone_endpoint : RuntimeState
unfolding new_table
gone_endpoint = record {
  processes = record {
    processes =
        some (process_in 1 running) ∷ some (process_in 2 (blocked_on_endpoint 9 4 0 8 none)) ∷ [];
    count = 2;
    current = some 1;
    next_id = 3;
  };
  objects = new_table;
  generation_id = "a";
  next_cap_id = 1;
  revoked_caps = [];
  revoked_cap_count = 0;
  cap_lineage = [];
  cap_lineage_count = 0;
}

cancel_unauthorized_blocked_receivers-Canceled_example : Canceled 5 gone_endpoint
unfolding gone_endpoint
cancel_unauthorized_blocked_receivers-Canceled_example =
    cancel_unauthorized_blocked_receivers-Canceled 5 gone_endpoint
      (record { entries = tt; slots = ((tt, tt), ((tt, tt), tt)) })
