-- ===== src/Object.antt =====
-- The kernel's objects: kernel/krust/src/kernel/object.rs. Byte strings are lists of numbers.
use Prim.Native.String.{String}
use vertex_os.Base.{ℕ, List}
use vertex_os.Ids.{KernelObjectId}
use vertex_os.Transport.{IpcEndpoint}
use vertex_os.Device.{
  TimerObject, NetworkPortObject, IoPortRangeObject, MmioRegionObject, FramebufferObject,
  InterruptLineObject, DmaRegionObject, PciDeviceObject, VirtioDeviceObject,
}
use vertex_os.Vfs.Namespace.{NamespaceObject, VfsRootObject, VfsMountObject}

abbrev pub boot_endpoint_id : ℕ
boot_endpoint_id = 1

abbrev pub max_objects : ℕ
max_objects = 128

pub record BootModuleObject : Type 0 where
  pub id : KernelObjectId
  pub name : String
  pub base : ℕ
  pub length : ℕ

-- `BootModuleObject::new`
unfoldable pub new_boot_module : KernelObjectId → String → ℕ → ℕ → BootModuleObject
new_boot_module id name base length = record { id = id; name = name; base = base; length = length }

pub record StoreObject : Type 0 where
  pub id : KernelObjectId
  pub name : String
  pub base : ℕ
  pub length : ℕ
  pub hash : String

-- `StoreObject::new`
unfoldable pub new_store_object : KernelObjectId → String → ℕ → ℕ → String → StoreObject
new_store_object id name base length hash = record {
  id = id;
  name = name;
  base = base;
  length = length;
  hash = hash;
}

pub record ProcessControlObject : Type 0 where
  pub id : KernelObjectId
  pub name : String

-- `ProcessControlObject::new`
unfoldable pub new_process_control : KernelObjectId → String → ProcessControlObject
new_process_control id name = record { id = id; name = name }

pub record SecretObject : Type 0 where
  pub id : KernelObjectId
  pub name : String
  pub value : List ℕ

-- `SecretObject::new`
unfoldable pub new_secret : KernelObjectId → String → List ℕ → SecretObject
new_secret id name value = record { id = id; name = name; value = value }

-- kernel/krust/src/kernel/runtime_config.rs
pub record BootStateVolumeConfig : Type 0 where
  pub id : String
  pub owner : String
  pub schema_version : String
  pub storage_class : String
  pub migration_policy : String
  pub retention_policy : String
  pub sharing_policy : String

pub record StateVolumeObject : Type 0 where
  pub id : KernelObjectId
  pub name : String
  pub owner : String
  pub schema_version : String
  pub storage_class : String
  pub migration_policy : String
  pub retention_policy : String
  pub sharing_policy : String

-- `StateVolumeObject::new`
unfoldable pub new_state_volume : KernelObjectId → BootStateVolumeConfig → StateVolumeObject
new_state_volume id state = record {
  id = id;
  name = state.id;
  owner = state.owner;
  schema_version = state.schema_version;
  storage_class = state.storage_class;
  migration_policy = state.migration_policy;
  retention_policy = state.retention_policy;
  sharing_policy = state.sharing_policy;
}

pub data KernelObject : Type 0 where
  ipc_endpoint : IpcEndpoint → KernelObject
  boot_module : BootModuleObject → KernelObject
  store_object : StoreObject → KernelObject
  state_volume : StateVolumeObject → KernelObject
  timer : TimerObject → KernelObject
  network_port : NetworkPortObject → KernelObject
  io_port_range : IoPortRangeObject → KernelObject
  mmio_region : MmioRegionObject → KernelObject
  framebuffer : FramebufferObject → KernelObject
  interrupt_line : InterruptLineObject → KernelObject
  dma_region : DmaRegionObject → KernelObject
  pci_device : PciDeviceObject → KernelObject
  virtio_device : VirtioDeviceObject → KernelObject
  namespace : NamespaceObject → KernelObject
  vfs_root : VfsRootObject → KernelObject
  vfs_mount : VfsMountObject → KernelObject
  process_control : ProcessControlObject → KernelObject
  secret : SecretObject → KernelObject

-- `KernelObject::id`
unfoldable pub object_id : KernelObject → KernelObjectId
object_id (ipc_endpoint object) = object.id
object_id (boot_module object) = object.id
object_id (store_object object) = object.id
object_id (state_volume object) = object.id
object_id (timer object) = object.id
object_id (network_port object) = object.id
object_id (io_port_range object) = object.id
object_id (mmio_region object) = object.id
object_id (framebuffer object) = object.id
object_id (interrupt_line object) = object.id
object_id (dma_region object) = object.id
object_id (pci_device object) = object.id
object_id (virtio_device object) = object.id
object_id (namespace object) = object.id
object_id (vfs_root object) = object.id
object_id (vfs_mount object) = object.id
object_id (process_control object) = object.id
object_id (secret object) = object.id
