-- ===== src/ObjectTable/Find.antt =====
-- The lookups of object_table.rs. The `_mut` lookups find the same slot; what is written through
-- them is the business of their callers.
use vertex_os.Base.{ℕ, ◌&&◌, Option, none, some, List, [], ◌∷◌, ◌==◌, leb, if◌then◌else◌, length}
use vertex_os.Ids.{KernelObjectId, VfsNodeId}
use vertex_os.Transport.{IpcEndpoint}
use vertex_os.Device.{
  TimerObject, NetworkPortObject, IoPortRangeObject, MmioRegionObject, FramebufferObject,
  InterruptLineObject, DmaRegionObject, VirtioDeviceObject,
}
use vertex_os.Vfs.Path.{path_bytes, bytes_eq}
use vertex_os.Vfs.Namespace.{
  NamespaceObject, VfsRootObject, VfsMountObject, vfs_authority_path_covers,
}
use vertex_os.Object.{
  BootModuleObject, StoreObject, StateVolumeObject, ProcessControlObject, SecretObject,
  KernelObject, ipc_endpoint, boot_module, store_object, state_volume, timer, network_port,
  io_port_range, mmio_region, framebuffer, interrupt_line, dma_region, virtio_device, namespace,
  vfs_root, vfs_mount, process_control, secret,
}
use vertex_os.ObjectTable.Table.{ObjectTable, used, find_object}

abbrev pub ipc_endpoint_with : KernelObjectId → KernelObject → Option IpcEndpoint
ipc_endpoint_with id (ipc_endpoint object) = if object.id == id then some object else none
ipc_endpoint_with id _ = none

unfoldable pub get_endpoint : KernelObjectId → ObjectTable → Option IpcEndpoint
get_endpoint id t = find_object (ipc_endpoint_with id) t

abbrev pub boot_module_with : KernelObjectId → KernelObject → Option BootModuleObject
boot_module_with id (boot_module object) = if object.id == id then some object else none
boot_module_with id _ = none

unfoldable pub get_boot_module : KernelObjectId → ObjectTable → Option BootModuleObject
get_boot_module id t = find_object (boot_module_with id) t

abbrev pub store_object_with : KernelObjectId → KernelObject → Option StoreObject
store_object_with id (store_object object) = if object.id == id then some object else none
store_object_with id _ = none

unfoldable pub get_store_object : KernelObjectId → ObjectTable → Option StoreObject
get_store_object id t = find_object (store_object_with id) t

abbrev pub state_volume_with : KernelObjectId → KernelObject → Option StateVolumeObject
state_volume_with id (state_volume object) = if object.id == id then some object else none
state_volume_with id _ = none

unfoldable pub get_state_volume : KernelObjectId → ObjectTable → Option StateVolumeObject
get_state_volume id t = find_object (state_volume_with id) t

abbrev pub network_port_with : KernelObjectId → KernelObject → Option NetworkPortObject
network_port_with id (network_port object) = if object.id == id then some object else none
network_port_with id _ = none

unfoldable pub get_network_port : KernelObjectId → ObjectTable → Option NetworkPortObject
get_network_port id t = find_object (network_port_with id) t

abbrev pub timer_with : KernelObjectId → KernelObject → Option TimerObject
timer_with id (timer object) = if object.id == id then some object else none
timer_with id _ = none

unfoldable pub get_timer : KernelObjectId → ObjectTable → Option TimerObject
get_timer id t = find_object (timer_with id) t

abbrev pub io_port_range_with : KernelObjectId → KernelObject → Option IoPortRangeObject
io_port_range_with id (io_port_range object) = if object.id == id then some object else none
io_port_range_with id _ = none

unfoldable pub get_io_port : KernelObjectId → ObjectTable → Option IoPortRangeObject
get_io_port id t = find_object (io_port_range_with id) t

abbrev pub mmio_region_with : KernelObjectId → KernelObject → Option MmioRegionObject
mmio_region_with id (mmio_region object) = if object.id == id then some object else none
mmio_region_with id _ = none

unfoldable pub get_mmio_region : KernelObjectId → ObjectTable → Option MmioRegionObject
get_mmio_region id t = find_object (mmio_region_with id) t

abbrev pub framebuffer_with : KernelObjectId → KernelObject → Option FramebufferObject
framebuffer_with id (framebuffer object) = if object.id == id then some object else none
framebuffer_with id _ = none

unfoldable pub get_framebuffer : KernelObjectId → ObjectTable → Option FramebufferObject
get_framebuffer id t = find_object (framebuffer_with id) t

abbrev pub interrupt_line_with : KernelObjectId → KernelObject → Option InterruptLineObject
interrupt_line_with id (interrupt_line object) = if object.id == id then some object else none
interrupt_line_with id _ = none

unfoldable pub get_interrupt_line : KernelObjectId → ObjectTable → Option InterruptLineObject
get_interrupt_line id t = find_object (interrupt_line_with id) t

abbrev pub dma_region_with : KernelObjectId → KernelObject → Option DmaRegionObject
dma_region_with id (dma_region object) = if object.id == id then some object else none
dma_region_with id _ = none

unfoldable pub get_dma_region : KernelObjectId → ObjectTable → Option DmaRegionObject
get_dma_region id t = find_object (dma_region_with id) t

abbrev pub virtio_device_with : KernelObjectId → KernelObject → Option VirtioDeviceObject
virtio_device_with id (virtio_device object) = if object.id == id then some object else none
virtio_device_with id _ = none

unfoldable pub get_virtio_device : KernelObjectId → ObjectTable → Option VirtioDeviceObject
get_virtio_device id t = find_object (virtio_device_with id) t

abbrev pub namespace_with : KernelObjectId → KernelObject → Option NamespaceObject
namespace_with id (namespace object) = if object.id == id then some object else none
namespace_with id _ = none

unfoldable pub get_namespace : KernelObjectId → ObjectTable → Option NamespaceObject
get_namespace id t = find_object (namespace_with id) t

abbrev pub vfs_root_with : KernelObjectId → KernelObject → Option VfsRootObject
vfs_root_with id (vfs_root object) = if object.id == id then some object else none
vfs_root_with id _ = none

unfoldable pub get_vfs_root : KernelObjectId → ObjectTable → Option VfsRootObject
get_vfs_root id t = find_object (vfs_root_with id) t

abbrev pub process_control_with : KernelObjectId → KernelObject → Option ProcessControlObject
process_control_with id (process_control object) = if object.id == id then some object else none
process_control_with id _ = none

unfoldable pub get_process_control : KernelObjectId → ObjectTable → Option ProcessControlObject
get_process_control id t = find_object (process_control_with id) t

abbrev pub secret_with : KernelObjectId → KernelObject → Option SecretObject
secret_with id (secret object) = if object.id == id then some object else none
secret_with id _ = none

unfoldable pub get_secret : KernelObjectId → ObjectTable → Option SecretObject
get_secret id t = find_object (secret_with id) t

abbrev pub interrupt_line_number : ℕ → KernelObject → Option InterruptLineObject
interrupt_line_number irq_line (interrupt_line object) =
    if object.line == irq_line then some object else none
interrupt_line_number irq_line _ = none

unfoldable pub get_interrupt_line_by_number : ℕ → ObjectTable → Option InterruptLineObject
get_interrupt_line_by_number irq_line t = find_object (interrupt_line_number irq_line) t

abbrev pub vfs_mount_of_node : VfsNodeId → KernelObject → Option VfsMountObject
vfs_mount_of_node root_node (vfs_mount object) =
    if object.root_node == root_node then some object else none
vfs_mount_of_node root_node _ = none

unfoldable pub get_vfs_mount_by_root_node : VfsNodeId → ObjectTable → Option VfsMountObject
get_vfs_mount_by_root_node root_node t = find_object (vfs_mount_of_node root_node) t

abbrev pub vfs_mount_at : List ℕ → KernelObject → Option VfsMountObject
vfs_mount_at path (vfs_mount object) =
    if bytes_eq (path_bytes object.root_path) path then some object else none
vfs_mount_at path _ = none

unfoldable pub get_vfs_mount_by_exact_path : List ℕ → ObjectTable → Option VfsMountObject
get_vfs_mount_by_exact_path path t = find_object (vfs_mount_at path) t

-- One round of the loop of `get_vfs_mount_by_path`: `best` and `best_len` so far.
unfoldable pub better_mount :
    List ℕ → Option VfsMountObject × ℕ → Option KernelObject → Option VfsMountObject × ℕ
better_mount path (best, best_len) (some (vfs_mount mount)) =
    let root_path = path_bytes mount.root_path in
    if vfs_authority_path_covers root_path path && leb best_len (length root_path)
    then (some mount, length root_path)
    else (best, best_len)
better_mount path so_far _ = so_far

unfoldable pub best_mount :
    List ℕ → Option VfsMountObject × ℕ → List (Option KernelObject) → Option VfsMountObject × ℕ
unfolding better_mount
best_mount path so_far [] = so_far
best_mount path so_far (slot ∷ slots) = best_mount path (better_mount path so_far slot) slots

unfoldable pub get_vfs_mount_by_path : List ℕ → ObjectTable → Option VfsMountObject
unfolding best_mount
get_vfs_mount_by_path path t = (best_mount path (none, 0) (used t)).0
