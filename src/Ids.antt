-- ===== src/Ids.antt =====
-- Identifiers and errors of the kernel: kernel/krust/src/kernel/process.rs (ProcessId),
-- kernel/object.rs (KernelObjectId), kernel/error.rs and vfs/path.rs (VfsNodeId). An identifier is
-- the number that it wraps.
use vertex_os.Base.{ℕ, ltb, if◌then◌else◌, ◌+◌, ◌-◌, ◌^◌}

abbrev pub ProcessId : Type 0
ProcessId = ℕ

abbrev pub KernelObjectId : Type 0
KernelObjectId = ℕ

abbrev pub VfsNodeId : Type 0
VfsNodeId = ℕ

-- `ProcessId::empty()`
abbrev pub no_process : ProcessId
no_process = 0

pub data InitError : Type 0 where
  object_table_full process_table_full capability_table_full invalid_boot_manifest : InitError

pub data IpcError : Type 0 where
  bad_capability invalid_user_buffer message_too_large empty vfs_permission vfs_bad_path : IpcError
  vfs_not_found vfs_not_directory vfs_not_file vfs_busy vfs_bad_handle vfs_unsupported : IpcError
  vfs_no_space vfs_exists : IpcError

-- `u64::MAX`
abbrev pub u64_max : ℕ
u64_max = 2 ^ 64 - 1

-- `a.saturating_add(b)` on u64
abbrev pub saturating_add : ℕ → ℕ → ℕ
saturating_add a b = if ltb u64_max (a + b) then u64_max else a + b
