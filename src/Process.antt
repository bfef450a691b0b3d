-- ===== src/Process.antt =====
-- Processes and their table: kernel/krust/src/kernel/process_runtime.rs. A process is modelled
-- with the fields that its capabilities, its file handles and its scheduling read; its
-- image, its quotas, its exit status and its DMA mappings are left out.
pub mod FileHandles
pub mod Handles
pub mod Changes
pub mod Added
pub mod Turns
pub mod RoundRobin
mod Tests
use vertex_os.Base.{
  ℕ, suc, zero, ◌+◌, ◌-◌, ◌*◌, ◌/◌, ◌%◌, Bool, true, false, not, ◌&&◌, ◌||◌, Option, none, some,
  List, [], ◌∷◌, Result, ok, err, ◌==◌, ltb, leb, if◌then◌else◌, length, get_elem?, set, take,
  replicate, is_some, is_none, find_map, position, bit_or, bit_and,
}
use Prim.Native.String.{String}
use vertex_os.Ids.{
  ProcessId, KernelObjectId, VfsNodeId, no_process, IpcError, bad_capability, vfs_bad_handle,
  vfs_no_space, saturating_add,
}
use vertex_os.Vfs.Handle.{
  FileDescriptionId, VfsStateOperation, FileHandle, FileHandleSlot, empty_slot,
}
use vertex_os.Frame.{ProcessContext, SyscallFrame, empty_frame}
use vertex_os.Capability.{CapabilitySpace, new_space}

abbrev pub max_processes : ℕ
max_processes = 16

abbrev pub max_file_handles : ℕ
max_file_handles = 16

pub data ProcessState : Type 0 where
  empty declared ready running exited : ProcessState
  blocked_on_endpoint : KernelObjectId → ℕ → ℕ → ℕ → Option ℕ → ProcessState
  blocked_on_interrupt : KernelObjectId → Option ℕ → ProcessState
  blocked_on_vfs_read : VfsNodeId → FileDescriptionId → ℕ → ℕ → ProcessState
  blocked_on_vfs_state :
      KernelObjectId
      → VfsNodeId
      → FileDescriptionId
      → VfsStateOperation
      → ℕ
      → ℕ
      → ℕ
      → ℕ
      → ℕ
      → Bool
      → ProcessState
  blocked_on_vertex_fs_sync : KernelObjectId → KernelObjectId → ℕ → ℕ → ℕ → ℕ → ℕ → ℕ → ProcessState
  blocked_on_network_port : KernelObjectId → ℕ → ℕ → ProcessState
  sleeping : ℕ → ProcessState

-- `state == ProcessState::Ready`
abbrev pub is_ready : ProcessState → Bool
is_ready state = elim state [ ready ↦ true | _ ↦ false ]

-- `state == ProcessState::Declared`
abbrev pub is_declared : ProcessState → Bool
is_declared state = elim state [ declared ↦ true | _ ↦ false ]

pub record Process : Type 0 where
  pub pid : ProcessId
  pub name : String
  pub state : ProcessState
  pub context : ProcessContext
  pub caps : CapabilitySpace
  pub initial_caps : CapabilitySpace
  pub file_handles : List FileHandleSlot
  pub saved_frame : SyscallFrame
  pub has_saved_frame : Bool

-- `Process::empty()`
unfoldable pub empty_process : Process
unfolding new_space empty_slot empty_frame
empty_process = record {
  pid = no_process;
  name = "";
  state = empty;
  context = record { cr3 = 0; entry = 0; stack_top = 0 };
  caps = new_space;
  initial_caps = new_space;
  file_handles = replicate max_file_handles empty_slot;
  saved_frame = empty_frame;
  has_saved_frame = false;
}

pub record ProcessTable : Type 0 where
  pub processes : List (Option Process)
  pub count : ℕ
  pub current : Option ProcessId
  pub next_id : ℕ

-- `ProcessTable::new()`
unfoldable pub new_processes : ProcessTable
unfolding empty_process
new_processes = record {
  processes = replicate max_processes (some empty_process);
  count = 0;
  current = none;
  next_id = 1;
}

-- The slots that the loops look at, `processes[..count]`.
abbrev pub live : ProcessTable → List (Option Process)
live t = take t.count t.processes

-- A slot that holds the process.
unfoldable pub holds_pid : ProcessId → Option Process → Bool
holds_pid pid none = false
holds_pid pid (some process) = process.pid == pid

unfoldable pub process_if_pid : ProcessId → Option Process → Option Process
process_if_pid pid none = none
process_if_pid pid (some process) = if process.pid == pid then some process else none

unfoldable pub process : ProcessId → ProcessTable → Option Process
unfolding process_if_pid
process pid t = find_map (process_if_pid pid) (live t)

unfoldable pub current_process : ProcessTable → Option Process
unfolding process
current_process t = elim t.current [ none ↦ none | some pid ↦ process pid t ]

unfoldable pub current_index : ProcessTable → Option ℕ
unfolding holds_pid
current_index t = elim t.current [ none ↦ none | some pid ↦ position (holds_pid pid) (live t) ]

-- A write through `process_mut(pid)`: the process in the first slot that holds the pid becomes
-- the one given.
unfoldable pub write_process : ProcessId → Process → ProcessTable → ProcessTable
unfolding holds_pid
write_process pid written t = elim (position (holds_pid pid) (live t)) [
  | none ↦ t
  | some index ↦ record t { processes = set t.processes index (some written) }
]

-- `if !include_current && current == Some(index)`
abbrev pub is_skipped : Bool → Option ℕ → ℕ → Bool
is_skipped include_current current index =
    not include_current && elim current [ none ↦ false | some c ↦ c == index ]

unfoldable pub is_ready_at : ProcessTable → ℕ → Bool
is_ready_at t index = elim (get_elem? t.processes index) [
  | none ↦ false
  | some none ↦ false
  | some (some process) ↦ is_ready process.state
]

-- The loop of the search, by the rounds that are left and the offset of the next one.
unfoldable pub search_ready : ProcessTable → Bool → Option ℕ → ℕ → ℕ → ℕ → Option ℕ
unfolding is_ready_at
search_ready t include_current current start offset zero = none
search_ready t include_current current start offset (suc rounds) =
    let index = (start + offset) % t.count in
    let rest = search_ready t include_current current start (suc offset) rounds in
    if is_skipped include_current current index
    then rest
    else if is_ready_at t index
    then some index
    else rest

-- `current_index().map(|index| (index + 1) % count).unwrap_or(0)`
unfoldable pub search_start : ProcessTable → ℕ
unfolding current_index
search_start t = elim (current_index t) [ none ↦ 0 | some index ↦ (index + 1) % t.count ]

unfoldable pub next_ready_index_round_robin : Bool → ProcessTable → Option ℕ
unfolding search_ready search_start current_index
next_ready_index_round_robin include_current t =
    if t.count == 0
    then none
    else search_ready t include_current (current_index t) (search_start t) 0 t.count
