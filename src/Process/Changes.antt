-- ===== src/Process/Changes.antt =====
-- Processes that come and go: add_process, remove_last_process, remove_process and reset of
-- kernel/krust/src/kernel/process_runtime.rs, on the modelled fields of a process.
use vertex_os.Base.{
  ℕ, zero, suc, ◌+◌, ◌-◌, Bool, false, Option, none, some, List, Result, ok, err, ◌==◌,
  if◌then◌else◌, length, get_elem?, set, replicate, position,
}
use Prim.Native.String.{String}
use vertex_os.Ids.{ProcessId, InitError, process_table_full, invalid_boot_manifest}
use vertex_os.Vfs.Handle.{empty_slot}
use vertex_os.Frame.{ProcessContext, empty_frame}
use vertex_os.Capability.{CapabilitySpace}
use vertex_os.Process.{
  Process, ProcessState, ProcessTable, max_file_handles, empty_process, live, holds_pid,
}

-- `Process::new`
unfoldable pub new_process :
    ProcessId → String → ProcessContext → ProcessState → CapabilitySpace → Process
unfolding empty_slot empty_frame
new_process pid name context state caps = record {
  pid = pid;
  name = name;
  state = state;
  context = context;
  caps = caps;
  initial_caps = caps;
  file_handles = replicate max_file_handles empty_slot;
  saved_frame = empty_frame;
  has_saved_frame = false;
}

unfoldable pub add_process :
    String
    → ProcessContext
    → ProcessState
    → CapabilitySpace
    → ProcessTable
    → Result InitError (ProcessId × ProcessTable)
unfolding new_process
add_process name context state caps t =
    if t.count == length t.processes
    then err process_table_full
    else ok (
      t.next_id,
      record t {
        processes = set t.processes t.count (some (new_process t.next_id name context state caps));
        count = t.count + 1;
        next_id = t.next_id + 1;
      },
    )

-- The table without its last process.
unfoldable pub without_last : ProcessId → ProcessTable → ProcessTable
unfolding empty_process
without_last pid t = record t {
  processes = set t.processes (t.count - 1) (some empty_process);
  count = t.count - 1;
  next_id = if t.next_id == pid + 1 then pid else t.next_id;
}

unfoldable pub remove_last_process : ProcessId → ProcessTable → Result InitError ProcessTable
unfolding without_last
remove_last_process pid t =
    if t.count == 0 then err invalid_boot_manifest else elim (get_elem? t.processes (t.count - 1)) [
      | none ↦ err invalid_boot_manifest
      | some none ↦ err invalid_boot_manifest
      | some (some process) ↦
          if process.pid == pid then ok (without_last pid t) else err invalid_boot_manifest
    ]

-- The loop that moves the later slots down, by the number of its rounds.
unfoldable pub move_down : ℕ → ℕ → List (Option Process) → List (Option Process)
move_down zero index slots = slots
move_down (suc rounds) index slots =
    move_down rounds (suc index)
      (elim (get_elem? slots (suc index)) [ none ↦ slots | some slot ↦ set slots index slot ])

abbrev pub is_current : ProcessId → ProcessTable → Bool
is_current pid t = elim t.current [ none ↦ false | some current ↦ current == pid ]

unfoldable pub remove_process : ProcessId → ProcessTable → Result InitError ProcessTable
unfolding holds_pid move_down empty_process
remove_process pid t = elim (position (holds_pid pid) (live t)) [
  | none ↦ err invalid_boot_manifest
  | some index ↦
      if is_current pid t
      then err invalid_boot_manifest
      else ok (record t {
        processes =
            set (move_down (t.count - 1 - index) index t.processes) (t.count - 1)
              (some empty_process);
        count = t.count - 1;
      })
]

unfoldable pub set_current : ProcessId → ProcessTable → ProcessTable
set_current pid t = record t { current = some pid }

unfoldable pub reset_processes : ProcessTable → ProcessTable
reset_processes t = record t { count = 0; current = none; next_id = 1 }
