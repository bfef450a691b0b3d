-- ===== src/Vfs/Handle.antt =====
-- Handles of open files: kernel/krust/src/vfs/handle.rs and the operations of vfs/state.rs.
use vertex_os.Base.{ℕ, Option, none}
use vertex_os.Ids.{ProcessId, VfsNodeId}

abbrev pub FileDescriptionId : Type 0
FileDescriptionId = ℕ

pub data VfsStateOperation : Type 0 where
  read stat write control service_read : VfsStateOperation

pub record OpenFileDescription : Type 0 where
  pub id : FileDescriptionId
  pub node : VfsNodeId
  pub rights : ℕ
  pub flags : ℕ
  pub offset : ℕ
  pub ref_count : ℕ
  pub owner : ProcessId
  pub authority_cap_id : ℕ
  pub watch_cursor : ℕ

pub record FileHandle : Type 0 where
  pub description : FileDescriptionId

pub record FileHandleSlot : Type 0 where
  pub generation : ℕ
  pub handle : Option FileHandle

-- `FileHandleSlot::empty()`
unfoldable pub empty_slot : FileHandleSlot
empty_slot = record { generation = 0; handle = none }
