-- ===== src/ObjectTable/Additions.antt =====
-- The adding methods of object_table.rs that append: each puts in one object under the next
-- identifier.
use Prim.Native.String.{String}
use vertex_os.Base.{ℕ, ◌≡◌, refl, Option, List, ok, length}
use vertex_os.Ids.{KernelObjectId}
use vertex_os.Device.{
  new_timer, new_network_port, new_io_port_range, new_mmio_region, new_framebuffer,
  new_interrupt_line, new_dma_region, new_pci_device, new_virtio_device,
}
use vertex_os.Vfs.Namespace.{NamespaceEntry}
use vertex_os.Object.{
  BootStateVolumeConfig, KernelObject, object_id, boot_module, store_object, state_volume, timer,
  network_port, io_port_range, mmio_region, framebuffer, interrupt_line, dma_region, pci_device,
  virtio_device, namespace, process_control, secret, new_boot_module, new_store_object,
  new_state_volume, new_process_control, new_secret,
}
use vertex_os.ObjectTable.Table.{ObjectTable}
use vertex_os.ObjectTable.Add.{
  add_boot_module, add_store_object, add_state_volume, add_timer, add_network_port, add_io_port,
  add_mmio_region, add_framebuffer, add_interrupt_line, add_dma_region, add_pci_device,
  add_virtio_device, add_namespace, add_process_control, add_secret,
}
use vertex_os.ObjectTable.Valid.{IsTable}
use vertex_os.ObjectTable.Placed.{Added, append_object-Added}

pub add_boot_module-Added :
    (name : String) (base length : ℕ) (t : ObjectTable) {r : KernelObjectId × ObjectTable}
    → IsTable t
    → add_boot_module name base length t ≡ ok r
    → (o : KernelObject) × Added t r.0 o r.1
unfolding add_boot_module object_id new_boot_module
add_boot_module-Added name base length t v e = (
  _,
  append_object-Added (λ id. boot_module (new_boot_module id name base length)) t (λ n. refl) v e,
)

pub add_store_object-Added :
    (name : String) (base length : ℕ) (hash : String) (t : ObjectTable)
    {r : KernelObjectId × ObjectTable}
    → IsTable t
    → add_store_object name base length hash t ≡ ok r
    → (o : KernelObject) × Added t r.0 o r.1
unfolding add_store_object object_id new_store_object
add_store_object-Added name base length hash t v e = (
  _,
  append_object-Added (λ id. store_object (new_store_object id name base length hash)) t (λ n. refl)
      v e,
)

pub add_state_volume-Added :
    (state : BootStateVolumeConfig) (t : ObjectTable) {r : KernelObjectId × ObjectTable}
    → IsTable t
    → add_state_volume state t ≡ ok r
    → (o : KernelObject) × Added t r.0 o r.1
unfolding add_state_volume object_id new_state_volume
add_state_volume-Added state t v e =
    (_, append_object-Added (λ id. state_volume (new_state_volume id state)) t (λ n. refl) v e)

pub add_timer-Added :
    (name : String) (t : ObjectTable) {r : KernelObjectId × ObjectTable}
    → IsTable t
    → add_timer name t ≡ ok r
    → (o : KernelObject) × Added t r.0 o r.1
unfolding add_timer object_id new_timer
add_timer-Added name t v e =
    (_, append_object-Added (λ id. timer (new_timer id name)) t (λ n. refl) v e)

pub add_network_port-Added :
    (name : String) (t : ObjectTable) {r : KernelObjectId × ObjectTable}
    → IsTable t
    → add_network_port name t ≡ ok r
    → (o : KernelObject) × Added t r.0 o r.1
unfolding add_network_port object_id new_network_port
add_network_port-Added name t v e =
    (_, append_object-Added (λ id. network_port (new_network_port id name)) t (λ n. refl) v e)

pub add_io_port-Added :
    (name : String) (base length : ℕ) (t : ObjectTable) {r : KernelObjectId × ObjectTable}
    → IsTable t
    → add_io_port name base length t ≡ ok r
    → (o : KernelObject) × Added t r.0 o r.1
unfolding add_io_port object_id new_io_port_range
add_io_port-Added name base length t v e = (
  _,
  append_object-Added (λ id. io_port_range (new_io_port_range id name base length)) t (λ n. refl) v
      e,
)

pub add_mmio_region-Added :
    (name : String) (base length : ℕ) (t : ObjectTable) {r : KernelObjectId × ObjectTable}
    → IsTable t
    → add_mmio_region name base length t ≡ ok r
    → (o : KernelObject) × Added t r.0 o r.1
unfolding add_mmio_region object_id new_mmio_region
add_mmio_region-Added name base length t v e = (
  _,
  append_object-Added (λ id. mmio_region (new_mmio_region id name base length)) t (λ n. refl) v e,
)

pub add_framebuffer-Added :
    (name : String) (b l w h p d rs rh gs gh bs bh : ℕ) (t : ObjectTable)
    {r : KernelObjectId × ObjectTable}
    → IsTable t
    → add_framebuffer name b l w h p d rs rh gs gh bs bh t ≡ ok r
    → (o : KernelObject) × Added t r.0 o r.1
unfolding add_framebuffer object_id new_framebuffer
add_framebuffer-Added name b l w h p d rs rh gs gh bs bh t v e = (
  _,
  append_object-Added (λ id. framebuffer (new_framebuffer id name b l w h p d rs rh gs gh bs bh)) t
      (λ n. refl) v e,
)

pub add_interrupt_line-Added :
    (name : String) (line : ℕ) (t : ObjectTable) {r : KernelObjectId × ObjectTable}
    → IsTable t
    → add_interrupt_line name line t ≡ ok r
    → (o : KernelObject) × Added t r.0 o r.1
unfolding add_interrupt_line object_id new_interrupt_line
add_interrupt_line-Added name line t v e = (
  _,
  append_object-Added (λ id. interrupt_line (new_interrupt_line id name line)) t (λ n. refl) v e,
)

pub add_dma_region-Added :
    (name : String) (base length : ℕ) (t : ObjectTable) {r : KernelObjectId × ObjectTable}
    → IsTable t
    → add_dma_region name base length t ≡ ok r
    → (o : KernelObject) × Added t r.0 o r.1
unfolding add_dma_region object_id new_dma_region
add_dma_region-Added name base length t v e = (
  _,
  append_object-Added (λ id. dma_region (new_dma_region id name base length)) t (λ n. refl) v e,
)

pub add_pci_device-Added :
    (name kind : String) (t : ObjectTable) {r : KernelObjectId × ObjectTable}
    → IsTable t
    → add_pci_device name kind t ≡ ok r
    → (o : KernelObject) × Added t r.0 o r.1
unfolding add_pci_device object_id new_pci_device
add_pci_device-Added name kind t v e =
    (_, append_object-Added (λ id. pci_device (new_pci_device id name kind)) t (λ n. refl) v e)

pub add_virtio_device-Added :
    (name transport : String) (t : ObjectTable) {r : KernelObjectId × ObjectTable}
    → IsTable t
    → add_virtio_device name transport t ≡ ok r
    → (o : KernelObject) × Added t r.0 o r.1
unfolding add_virtio_device object_id new_virtio_device
add_virtio_device-Added name transport t v e = (
  _,
  append_object-Added (λ id. virtio_device (new_virtio_device id name transport)) t (λ n. refl) v e,
)

pub add_namespace-Added :
    (name : String) (entries : List (Option NamespaceEntry)) (entry_count : ℕ) (t : ObjectTable)
    {r : KernelObjectId × ObjectTable}
    → IsTable t
    → add_namespace name entries entry_count t ≡ ok r
    → (o : KernelObject) × Added t r.0 o r.1
unfolding add_namespace object_id
add_namespace-Added name entries entry_count t v e = (
  _,
  append_object-Added
      (λ id.
        namespace (record { id = id; name = name; entries = entries; entry_count = entry_count }))
      t (λ n. refl) v e,
)

pub add_process_control-Added :
    (name : String) (t : ObjectTable) {r : KernelObjectId × ObjectTable}
    → IsTable t
    → add_process_control name t ≡ ok r
    → (o : KernelObject) × Added t r.0 o r.1
unfolding add_process_control object_id new_process_control
add_process_control-Added name t v e =
    (_, append_object-Added (λ id. process_control (new_process_control id name)) t (λ n. refl) v e)

pub add_secret-Added :
    (name : String) (value : List ℕ) (t : ObjectTable) {r : KernelObjectId × ObjectTable}
    → IsTable t
    → add_secret name value t ≡ ok r
    → (o : KernelObject) × Added t r.0 o r.1
unfolding add_secret object_id new_secret
add_secret-Added name value t v e =
    (_, append_object-Added (λ id. secret (new_secret id name value)) t (λ n. refl) v e)
