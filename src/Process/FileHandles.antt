-- ===== src/Process/FileHandles.antt =====
-- The raw handles of open files: kernel/krust/src/kernel/process_runtime.rs, on the array of handle
-- slots of a process. A raw handle holds a generation above the byte of its slot.
use vertex_os.Base.{
  ℕ, ◌+◌, ◌-◌, ◌*◌, ◌/◌, ◌%◌, Bool, ◌||◌, none, some, List, Result, ok, err, ◌==◌, if◌then◌else◌,
  get_elem?, set, is_none, position, bit_or, bit_and,
}
use vertex_os.Ids.{IpcError, vfs_bad_handle, vfs_no_space, saturating_add}
use vertex_os.Vfs.Handle.{FileHandle, FileHandleSlot}

-- `decode_file_handle`: the index of the slot and the generation.
unfoldable pub decode_file_handle : ℕ → Result IpcError (ℕ × ℕ)
decode_file_handle raw =
    let slot = bit_and raw 255 in
    let generation = raw / 256 in
    if raw == 0 || (slot == 0 || generation == 0)
    then err vfs_bad_handle
    else ok (slot - 1, generation)

abbrev pub is_free : FileHandleSlot → Bool
is_free slot = is_none slot.handle

-- `generation.saturating_add(1)`, and 1 where that is 0
abbrev pub next_generation : ℕ → ℕ
next_generation generation = let next = saturating_add generation 1 in if next == 0 then 1 else next

-- `(generation << FILE_HANDLE_SLOT_BITS) | (index + 1)` on u64
unfoldable pub raw_handle : ℕ → ℕ → ℕ
raw_handle generation index = bit_or (generation * 256 % 18446744073709551616) (index + 1)

-- The raw handle, and the table with the slot taken.
unfoldable pub open_file_handle :
    FileHandle → List FileHandleSlot → Result IpcError (ℕ × List FileHandleSlot)
unfolding raw_handle
open_file_handle handle slots = elim (position is_free slots) [
  | none ↦ err vfs_no_space
  | some index ↦ elim (get_elem? slots index) [
    | none ↦ err vfs_no_space
    | some slot ↦
        let generation = next_generation slot.generation in
        ok (
          raw_handle generation index,
          set slots index (record { generation = generation; handle = some handle }),
        )
  ]
]

unfoldable pub handle_in : FileHandleSlot → ℕ → ℕ → Result IpcError (ℕ × FileHandle)
handle_in slot index generation =
    if slot.generation == generation
    then elim slot.handle [ none ↦ err vfs_bad_handle | some handle ↦ ok (index, handle) ]
    else err vfs_bad_handle

unfoldable pub file_handle : ℕ → List FileHandleSlot → Result IpcError (ℕ × FileHandle)
unfolding decode_file_handle handle_in
file_handle raw slots = elim (decode_file_handle raw) [
  | err e ↦ err e
  | ok (index, generation) ↦ elim (get_elem? slots index) [
    | none ↦ err vfs_bad_handle
    | some slot ↦ handle_in slot index generation
  ]
]

-- `self.file_handles[index].handle = None`
unfoldable pub release_slot : ℕ → List FileHandleSlot → List FileHandleSlot
release_slot index slots = elim (get_elem? slots index) [
  | none ↦ slots
  | some slot ↦ set slots index (record slot { handle = none })
]

unfoldable pub close_file_handle :
    ℕ → List FileHandleSlot → Result IpcError (FileHandle × List FileHandleSlot)
unfolding file_handle release_slot
close_file_handle raw slots = elim (file_handle raw slots) [
  | err e ↦ err e
  | ok (index, handle) ↦ ok (handle, release_slot index slots)
]
