-- ===== src/Process/Tests.antt =====
-- Three processes, of which two are ready, and a table of file handles.
use vertex_os.Base.{
  ℕ, ◌≡◌, refl, true, false, none, some, List, [], ◌∷◌, ok, err, replicate, All-replicate, arith,
}
use vertex_os.Ids.{vfs_bad_handle}
use vertex_os.Vfs.Handle.{FileHandle, FileHandleSlot, empty_slot}
use vertex_os.Process.{
  Process, ProcessState, ready, running, ProcessTable, max_file_handles, holds_pid, current_index,
  is_ready_at, search_ready, search_start, next_ready_index_round_robin,
}
use vertex_os.Process.FileHandles.{
  decode_file_handle, raw_handle, open_file_handle, handle_in, file_handle, release_slot,
  close_file_handle,
}
use vertex_os.Ids.{ProcessId}
use vertex_os.Base.{set}
use vertex_os.Process.{process}
use vertex_os.Frame.{SyscallFrame, empty_frame}
use vertex_os.Process.Changes.{new_process, add_process}
use vertex_os.Process.Added.{IsProcessTable, process-add_process}
use vertex_os.Process.Handles.{
  CanReopen, file_handle-open_file_handle, file_handle-close_file_handle,
}
use vertex_os.Process.Turns.{eligible}
use vertex_os.Process.RoundRobin.{
  Chosen, next_ready_index_round_robin-Chosen, next_ready_index_round_robin-none,
}

abbrev idle_frame : SyscallFrame
unfolding empty_frame
idle_frame = empty_frame

process_in : ℕ → ProcessState → Process
process_in pid state = record {
  pid = pid;
  name = "p";
  state = state;
  context = record { cr3 = 0; entry = 0; stack_top = 0 };
  caps = record { caps = [] };
  initial_caps = record { caps = [] };
  file_handles = [];
  saved_frame = idle_frame;
  has_saved_frame = false;
}

abbrev table_of : ProcessState → ProcessTable
unfolding process_in
table_of last = record {
  processes =
      some (process_in 1 ready)
      ∷ some (process_in 2 running)
      ∷ some (process_in 3 last)
      ∷ none
      ∷ [];
  count = 3;
  current = some 2;
  next_id = 4;
}

next_ready_index_round_robin-Chosen_example : Chosen false (table_of running) 0
unfolding next_ready_index_round_robin search_ready search_start current_index holds_pid is_ready_at
    process_in
next_ready_index_round_robin-Chosen_example =
    next_ready_index_round_robin-Chosen false (table_of running) 0 refl

abbrev busy : ProcessTable
unfolding process_in
busy = record {
  processes = some (process_in 1 running) ∷ none ∷ [];
  count = 1;
  current = some 1;
  next_id = 2;
}

next_ready_index_round_robin-none_example : eligible busy true 0 ≡ false
unfolding next_ready_index_round_robin search_ready search_start current_index holds_pid is_ready_at
    process_in
next_ready_index_round_robin-none_example =
    next_ready_index_round_robin-none true busy refl 0 (omega arith)

abbrev fresh_slots : List FileHandleSlot
fresh_slots = replicate max_file_handles empty_slot

abbrev console : FileHandle
console = record { description = 9 }

abbrev first_slot : FileHandleSlot
first_slot = record { generation = 1; handle = some console }

abbrev one_open : List FileHandleSlot
one_open = first_slot ∷ replicate 15 empty_slot

file_handle-open_file_handle_example :
    (index : ℕ) × (file_handle 257 one_open ≡ ok (index, console))
unfolding open_file_handle raw_handle empty_slot
file_handle-open_file_handle_example =
    file_handle-open_file_handle console fresh_slots 257 one_open refl
      (All-replicate CanReopen max_file_handles empty_slot (omega arith)) refl

abbrev one_closed : List FileHandleSlot
one_closed = record { generation = 1; handle = none } ∷ replicate 15 empty_slot

file_handle-close_file_handle_example : file_handle 257 one_closed ≡ err vfs_bad_handle
unfolding close_file_handle file_handle decode_file_handle handle_in release_slot
file_handle-close_file_handle_example =
    file_handle-close_file_handle 257 console one_open one_closed refl

abbrev empty_table : ProcessTable
empty_table = record { processes = replicate 16 none; count = 0; current = none; next_id = 1 }

empty_table-IsProcessTable : IsProcessTable empty_table
empty_table-IsProcessTable = record { within = omega arith; below = tt }

entered : ProcessId × ProcessTable
unfolding new_process empty_slot empty_frame
entered = (
  1,
  record empty_table {
    processes = set empty_table.processes 0 (
        some (
          new_process 1 "init" (record { cr3 = 7; entry = 8; stack_top = 9 }) running
            (record { caps = [] })));
    count = 1;
    next_id = 2;
  },
)

entered_added :
    add_process "init"
      (record { cr3 = 7; entry = 8; stack_top = 9 })
      running
      (record { caps = [] })
      empty_table
    ≡ ok entered
unfolding add_process entered
entered_added = refl

process-add_process_example :
    (process entered.0 entered.1
      ≡ some (
          new_process entered.0 "init"
            (record { cr3 = 7; entry = 8; stack_top = 9 })
            running
            (record { caps = [] })))
    × (process 5 entered.1 ≡ process 5 empty_table)
    × IsProcessTable entered.1
unfolding entered
process-add_process_example =
    process-add_process "init" (record { cr3 = 7; entry = 8; stack_top = 9 }) running
      (record { caps = [] }) empty_table entered 5 empty_table-IsProcessTable entered_added
      (ground arith)
