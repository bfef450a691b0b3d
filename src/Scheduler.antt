-- ===== src/Scheduler.antt =====
-- The scheduler: kernel/krust/src/ipc/scheduler.rs and the preemption of
-- kernel/krust/src/ipc/process_syscalls.rs. A reading of the time stamp counter is an argument; the
-- log lines and the switch of the address space are left out. The wait for a deadline, in which interrupts run,
-- is left out with the callers that ask for it.
pub mod Waiters
pub mod Authority
pub mod Receivers
pub mod Spared
pub mod Resumed
pub mod CancelLoop
pub mod Canceled
pub mod Revoke
pub mod Changed
pub mod Woken
pub mod Deadlines
pub mod Pids
pub mod Preempted
mod Tests
use vertex_os.Base.{
  ℕ, suc, zero, ◌+◌, ◌-◌, ◌%◌, ◌^◌, Bool, true, false, Option, none, some, List, [], ◌∷◌, ltb,
  if◌then◌else◌, get_elem?, set, is_none,
}
use vertex_os.Ids.{u64_max}
use vertex_os.Frame.{SyscallFrame, from_context}
use vertex_os.Process.{
  ProcessState, empty, declared, ready, running, exited, blocked_on_endpoint, blocked_on_interrupt,
  blocked_on_vfs_read, blocked_on_vfs_state, blocked_on_vertex_fs_sync, blocked_on_network_port,
  sleeping, Process, ProcessTable, current_process, current_index, live, write_process,
  next_ready_index_round_robin,
}

abbrev pub status_ok : ℕ
status_ok = 0

abbrev pub status_timeout : ℕ
status_timeout = u64_max - 9

-- `(now as i64).wrapping_sub(deadline as i64) >= 0`, on words
unfoldable pub deadline_reached : ℕ → ℕ → Bool
deadline_reached now deadline = ltb ((now + (2 ^ 64 - deadline)) % 2 ^ 64) (2 ^ 63)

-- `(left as i64).wrapping_sub(right as i64) < 0`, on words
unfoldable pub deadline_before : ℕ → ℕ → Bool
deadline_before left right = ltb (2 ^ 63 - 1) ((left + (2 ^ 64 - right)) % 2 ^ 64)

-- `saved_frame.rax = status; state = Ready`
unfoldable pub resume : ℕ → Process → Process
resume status process = record process {
  state = ready;
  saved_frame = record process.saved_frame { rax = status };
}

-- One round of the loop below, with the rest of the slots.
unfoldable pub change_one :
    Option Process → Process → List (Option Process) × ℕ → List (Option Process) × ℕ
change_one none process rest = (some process ∷ rest.0, rest.1)
change_one (some changed) process rest = (some changed ∷ rest.0, rest.1 + 1)

-- A loop over the first `n` slots that changes some processes and counts them.
unfoldable pub change_slots :
    (Process → Option Process) → ℕ → List (Option Process) → List (Option Process) × ℕ
unfolding change_one
change_slots f zero slots = (slots, 0)
change_slots f (suc n) [] = ([], 0)
change_slots f (suc n) (none ∷ slots) = let rest = change_slots f n slots in (none ∷ rest.0, rest.1)
change_slots f (suc n) (some process ∷ slots) =
    change_one (f process) process (change_slots f n slots)

-- The deadline of a process that waits for one.
unfoldable pub deadline_of : ProcessState → Option ℕ
deadline_of (sleeping wake_tsc) = some wake_tsc
deadline_of (blocked_on_endpoint endpoint cap_id destination max_len timeout_tsc) = timeout_tsc
deadline_of (blocked_on_interrupt interrupt timeout_tsc) = timeout_tsc
deadline_of _ = none

-- The status with which a process wakes at its deadline.
unfoldable pub wake_status : ProcessState → ℕ
wake_status (sleeping wake_tsc) = status_ok
wake_status _ = status_timeout

-- One round of the loop of `wake_timed_processes`.
unfoldable pub wake_process : ℕ → Process → Option Process
unfolding deadline_of wake_status deadline_reached resume
wake_process now process = elim (deadline_of process.state) [
  | none ↦ none
  | some deadline ↦
      if deadline_reached now deadline
      then some (resume (wake_status process.state) process)
      else none
]

unfoldable pub wake_timed_processes : ℕ → ProcessTable → ProcessTable × ℕ
unfolding change_slots wake_process
wake_timed_processes now t =
    let woken = change_slots (wake_process now) t.count t.processes in
    (record t { processes = woken.0 }, woken.1)

-- The earlier of the deadline so far and another.
unfoldable pub earlier : Option ℕ → ℕ → Option ℕ
unfolding deadline_before
earlier none deadline = some deadline
earlier (some current) deadline =
    if deadline_before deadline current then some deadline else some current

-- The loop of `next_deadline_tsc`.
unfoldable pub earliest_deadline : List (Option Process) → Option ℕ → Option ℕ
unfolding deadline_of earlier
earliest_deadline [] next = next
earliest_deadline (none ∷ slots) next = earliest_deadline slots next
earliest_deadline (some process ∷ slots) next = elim (deadline_of process.state) [
  | none ↦ earliest_deadline slots next
  | some deadline ↦ earliest_deadline slots (earlier next deadline)
]

unfoldable pub next_deadline_tsc : ProcessTable → Option ℕ
unfolding earliest_deadline
next_deadline_tsc t = earliest_deadline (live t) none

-- The frame that a process continues with.
unfoldable pub frame_of : Process → SyscallFrame
unfolding from_context
frame_of process =
    if process.has_saved_frame then process.saved_frame else from_context process.context

-- The switch to the slot chosen.
unfoldable pub switch_to : ℕ → Process → ProcessTable → ProcessTable
switch_to index process t = record t {
  processes = set t.processes index (some (record process { state = running }));
  current = some process.pid;
}

-- `schedule_next_ready_inner` with `wait_for_deadline` false: the frame to continue with, and none
-- where it returns false.
unfoldable pub schedule_no_wait : Bool → ℕ → ProcessTable → Option SyscallFrame × ProcessTable
unfolding wake_timed_processes next_ready_index_round_robin frame_of switch_to
schedule_no_wait include_current now t =
    let woken = (wake_timed_processes now t).0 in
    elim (next_ready_index_round_robin include_current woken) [
      | none ↦ (none, woken)
      | some index ↦ elim (get_elem? woken.processes index) [
        | none ↦ (none, woken)
        | some none ↦ (none, woken)
        | some (some process) ↦ (some (frame_of process), switch_to index process woken)
      ]
    ]

pub data ScheduleResult : Type 0 where
  continue switched : ScheduleResult
  halt : Bool → ScheduleResult

abbrev pub is_running : ProcessState → Bool
is_running state = elim state [ running ↦ true | _ ↦ false ]

-- The process that leaves the processor with its frame.
unfoldable pub saved : SyscallFrame → Process → Process
saved frame process = record process { saved_frame = frame; has_saved_frame = true; state = ready }

-- `current_process_mut().state = Running`
unfoldable pub resume_current : ProcessTable → ProcessTable
unfolding current_process write_process
resume_current t = elim (current_process t) [
  | none ↦ t
  | some process ↦ write_process process.pid (record process { state = running }) t
]

-- Past the process that was saved.
unfoldable pub preempt_to :
    SyscallFrame
    → Option SyscallFrame × ProcessTable
    → ScheduleResult × (SyscallFrame × ProcessTable)
unfolding resume_current
preempt_to frame (none, t) = (continue, (frame, resume_current t))
preempt_to frame (some next, t) = (switched, (next, t))

-- The readings are those of the call and of the scheduler that it calls.
unfoldable pub preempt_current_process :
    ℕ → ℕ → SyscallFrame → ProcessTable → ScheduleResult × (SyscallFrame × ProcessTable)
unfolding wake_timed_processes next_ready_index_round_robin current_process write_process saved
    schedule_no_wait preempt_to
preempt_current_process now later frame t =
    let woken = (wake_timed_processes now t).0 in
    elim (is_none (next_ready_index_round_robin false woken)) [
      | true ↦ (continue, (frame, woken))
      | false ↦ elim (current_process woken) [
        | none ↦ (halt false, (frame, woken))
        | some process ↦ elim (is_running process.state) [
          | false ↦ (continue, (frame, woken))
          | true ↦
              preempt_to frame (
                schedule_no_wait false later
                  (write_process process.pid (saved frame process) woken))
        ]
      ]
    ]
