-- ===== src/ObjectTable/Add.antt =====
-- The adding methods of object_table.rs. Each returns the identifier that it gave, and the table.
use Prim.Native.String.{String}
use vertex_os.Base.{
  ℕ, ◌+◌, Bool, true, false, Option, some, List, Result, ok, err, ◌>>=◌, ◌==◌, if◌then◌else◌,
  length, set,
}
use vertex_os.Ids.{
  KernelObjectId, ProcessId, VfsNodeId, no_process, InitError, object_table_full, IpcError,
  bad_capability,
}
use vertex_os.Transport.{new_endpoint}
use vertex_os.Device.{
  new_timer, new_network_port, new_io_port_range, new_mmio_region, new_framebuffer,
  new_interrupt_line, new_dma_region, new_pci_device, new_virtio_device,
}
use vertex_os.Vfs.Path.{VfsPath, from_boot_root_path}
use vertex_os.Vfs.Namespace.{NamespaceEntry, new_vfs_mount}
use vertex_os.Object.{
  new_boot_module, new_store_object, BootStateVolumeConfig, new_state_volume, new_process_control,
  new_secret, ipc_endpoint, boot_module, store_object, state_volume, timer, network_port,
  io_port_range, mmio_region, framebuffer, interrupt_line, dma_region, pci_device, virtio_device,
  namespace, vfs_root, vfs_mount, process_control, secret,
}
use vertex_os.ObjectTable.Table.{ObjectTable, insert_object, append_object}

unfoldable pub add_endpoint_owned :
    String → ProcessId → ObjectTable → Result InitError (KernelObjectId × ObjectTable)
unfolding insert_object
add_endpoint_owned name owner t = do
  t' ← insert_object (ipc_endpoint (new_endpoint t.next_id name owner)) t
  ok (t.next_id, record t' { next_id = t'.next_id + 1 })

unfoldable pub add_endpoint : String → ObjectTable → Result InitError (KernelObjectId × ObjectTable)
unfolding add_endpoint_owned
add_endpoint name t = add_endpoint_owned name no_process t

unfoldable pub add_boot_module :
    String → ℕ → ℕ → ObjectTable → Result InitError (KernelObjectId × ObjectTable)
unfolding append_object
add_boot_module name base length t =
    append_object (λ id. boot_module (new_boot_module id name base length)) t

unfoldable pub add_store_object :
    String → ℕ → ℕ → String → ObjectTable → Result InitError (KernelObjectId × ObjectTable)
unfolding append_object
add_store_object name base length hash t =
    append_object (λ id. store_object (new_store_object id name base length hash)) t

unfoldable pub add_state_volume :
    BootStateVolumeConfig → ObjectTable → Result InitError (KernelObjectId × ObjectTable)
unfolding append_object
add_state_volume state t = append_object (λ id. state_volume (new_state_volume id state)) t

unfoldable pub add_timer : String → ObjectTable → Result InitError (KernelObjectId × ObjectTable)
unfolding append_object
add_timer name t = append_object (λ id. timer (new_timer id name)) t

unfoldable pub add_network_port :
    String → ObjectTable → Result InitError (KernelObjectId × ObjectTable)
unfolding append_object
add_network_port name t = append_object (λ id. network_port (new_network_port id name)) t

unfoldable pub add_io_port :
    String → ℕ → ℕ → ObjectTable → Result InitError (KernelObjectId × ObjectTable)
unfolding append_object
add_io_port name base length t =
    append_object (λ id. io_port_range (new_io_port_range id name base length)) t

unfoldable pub add_mmio_region :
    String → ℕ → ℕ → ObjectTable → Result InitError (KernelObjectId × ObjectTable)
unfolding append_object
add_mmio_region name base length t =
    append_object (λ id. mmio_region (new_mmio_region id name base length)) t

unfoldable pub add_framebuffer :
    String
    → ℕ
    → ℕ
    → ℕ
    → ℕ
    → ℕ
    → ℕ
    → ℕ
    → ℕ
    → ℕ
    → ℕ
    → ℕ
    → ℕ
    → ObjectTable
    → Result InitError (KernelObjectId × ObjectTable)
unfolding append_object
add_framebuffer name physical_base length width height pitch bpp red_mask_size red_mask_shift
      green_mask_size green_mask_shift blue_mask_size blue_mask_shift t =
    append_object
      (λ id. framebuffer (
        new_framebuffer id name physical_base length width height pitch bpp red_mask_size
          red_mask_shift green_mask_size green_mask_shift blue_mask_size blue_mask_shift))
      t

unfoldable pub add_interrupt_line :
    String → ℕ → ObjectTable → Result InitError (KernelObjectId × ObjectTable)
unfolding append_object
add_interrupt_line name line t =
    append_object (λ id. interrupt_line (new_interrupt_line id name line)) t

unfoldable pub add_dma_region :
    String → ℕ → ℕ → ObjectTable → Result InitError (KernelObjectId × ObjectTable)
unfolding append_object
add_dma_region name base length t =
    append_object (λ id. dma_region (new_dma_region id name base length)) t

unfoldable pub add_pci_device :
    String → String → ObjectTable → Result InitError (KernelObjectId × ObjectTable)
unfolding append_object
add_pci_device name kind t = append_object (λ id. pci_device (new_pci_device id name kind)) t

unfoldable pub add_virtio_device :
    String → String → ObjectTable → Result InitError (KernelObjectId × ObjectTable)
unfolding append_object
add_virtio_device name transport t =
    append_object (λ id. virtio_device (new_virtio_device id name transport)) t

unfoldable pub add_namespace :
    String
    → List (Option NamespaceEntry)
    → ℕ
    → ObjectTable
    → Result InitError (KernelObjectId × ObjectTable)
unfolding append_object
add_namespace name entries entry_count t =
    append_object
      (λ id.
        namespace (record { id = id; name = name; entries = entries; entry_count = entry_count }))
      t

unfoldable pub add_process_control :
    String → ObjectTable → Result InitError (KernelObjectId × ObjectTable)
unfolding append_object
add_process_control name t = append_object (λ id. process_control (new_process_control id name)) t

unfoldable pub add_secret :
    String → List ℕ → ObjectTable → Result InitError (KernelObjectId × ObjectTable)
unfolding append_object
add_secret name value t = append_object (λ id. secret (new_secret id name value)) t

-- The path is checked after the room in the table, and before the identifier is taken.
unfoldable pub add_vfs_root :
    String → List ℕ → ObjectTable → Result InitError (KernelObjectId × ObjectTable)
unfolding append_object
add_vfs_root name root_path t = if t.count == length t.objects then err object_table_full else do
  path ← from_boot_root_path root_path
  append_object
      (λ id. vfs_root (record { id = id; name = name; root_path = path; derived = false })) t

unfoldable pub add_derived_vfs_root :
    VfsPath → ObjectTable → Result IpcError (KernelObjectId × ObjectTable)
unfolding append_object
add_derived_vfs_root root_path t =
    if t.count == length t.objects
    then err bad_capability
    else ok (
      t.next_id,
      record {
        next_id = t.next_id + 1;
        objects = set t.objects t.count (
            some (
              vfs_root (record {
                id = t.next_id;
                name = "vfs-root:derived";
                root_path = root_path;
                derived = true;
              })));
        count = t.count + 1;
      },
    )

unfoldable pub add_vfs_mount :
    String
    → VfsNodeId
    → VfsPath
    → String
    → ℕ
    → Bool
    → ProcessId
    → ObjectTable
    → Result InitError (KernelObjectId × ObjectTable)
unfolding insert_object
add_vfs_mount name root_node root_path source flags dynamic owner t =
    if t.count == length t.objects then err object_table_full else do
      let id = t.next_id
      t' ←
          insert_object
            (vfs_mount (new_vfs_mount id name root_node root_path source flags dynamic owner))
            (record t { next_id = t.next_id + 1 })
      ok (id, t')
