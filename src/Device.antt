-- ===== src/Device.antt =====
-- Hardware objects: kernel/krust/src/device/object.rs and device/network.rs. Machine integers are
-- numbers, and labels are texts.
use Prim.Native.String.{String}
use vertex_os.Base.{ℕ}
use vertex_os.Ids.{KernelObjectId, ProcessId, no_process}
use vertex_os.Transport.{MessageQueue, empty_queue}

pub record TimerObject : Type 0 where
  pub id : KernelObjectId
  pub name : String

-- `TimerObject::new`
unfoldable pub new_timer : KernelObjectId → String → TimerObject
new_timer id name = record { id = id; name = name }

pub record IoPortRangeObject : Type 0 where
  pub id : KernelObjectId
  pub name : String
  pub base : ℕ
  pub length : ℕ

-- `IoPortRangeObject::new`
unfoldable pub new_io_port_range : KernelObjectId → String → ℕ → ℕ → IoPortRangeObject
new_io_port_range id name base length = record {
  id = id;
  name = name;
  base = base;
  length = length;
}

pub record MmioRegionObject : Type 0 where
  pub id : KernelObjectId
  pub name : String
  pub base : ℕ
  pub length : ℕ

-- `MmioRegionObject::new`
unfoldable pub new_mmio_region : KernelObjectId → String → ℕ → ℕ → MmioRegionObject
new_mmio_region id name base length = record { id = id; name = name; base = base; length = length }

pub record FramebufferObject : Type 0 where
  pub id : KernelObjectId
  pub name : String
  pub physical_base : ℕ
  pub length : ℕ
  pub width : ℕ
  pub height : ℕ
  pub pitch : ℕ
  pub bpp : ℕ
  pub red_mask_size : ℕ
  pub red_mask_shift : ℕ
  pub green_mask_size : ℕ
  pub green_mask_shift : ℕ
  pub blue_mask_size : ℕ
  pub blue_mask_shift : ℕ

-- `FramebufferObject::new`
unfoldable pub new_framebuffer :
    KernelObjectId → String → ℕ → ℕ → ℕ → ℕ → ℕ → ℕ → ℕ → ℕ → ℕ → ℕ → ℕ → ℕ → FramebufferObject
new_framebuffer id name physical_base length width height pitch bpp red_mask_size red_mask_shift
      green_mask_size green_mask_shift blue_mask_size blue_mask_shift =
    record {
      id = id;
      name = name;
      physical_base = physical_base;
      length = length;
      width = width;
      height = height;
      pitch = pitch;
      bpp = bpp;
      red_mask_size = red_mask_size;
      red_mask_shift = red_mask_shift;
      green_mask_size = green_mask_size;
      green_mask_shift = green_mask_shift;
      blue_mask_size = blue_mask_size;
      blue_mask_shift = blue_mask_shift;
    }

pub record InterruptLineObject : Type 0 where
  pub id : KernelObjectId
  pub name : String
  pub line : ℕ
  pub pending_count : ℕ
  pub delivered_count : ℕ
  pub spurious_count : ℕ

-- `InterruptLineObject::new`
unfoldable pub new_interrupt_line : KernelObjectId → String → ℕ → InterruptLineObject
new_interrupt_line id name line = record {
  id = id;
  name = name;
  line = line;
  pending_count = 0;
  delivered_count = 0;
  spurious_count = 0;
}

pub record DmaRegionObject : Type 0 where
  pub id : KernelObjectId
  pub name : String
  pub base : ℕ
  pub length : ℕ
  pub mapped_by : ProcessId
  pub map_count : ℕ
  pub release_count : ℕ

-- `DmaRegionObject::new`
unfoldable pub new_dma_region : KernelObjectId → String → ℕ → ℕ → DmaRegionObject
new_dma_region id name base length = record {
  id = id;
  name = name;
  base = base;
  length = length;
  mapped_by = no_process;
  map_count = 0;
  release_count = 0;
}

pub record PciDeviceObject : Type 0 where
  pub id : KernelObjectId
  pub name : String
  pub kind : String

-- `PciDeviceObject::new`
unfoldable pub new_pci_device : KernelObjectId → String → String → PciDeviceObject
new_pci_device id name kind = record { id = id; name = name; kind = kind }

pub record VirtioDeviceObject : Type 0 where
  pub id : KernelObjectId
  pub name : String
  pub transport : String
  pub owner : ProcessId
  pub queue_size : ℕ
  pub avail_idx : ℕ
  pub used_idx : ℕ
  pub submissions : ℕ
  pub completions : ℕ
  pub timeouts : ℕ
  pub reset_count : ℕ
  pub last_error : String

-- `VirtioDeviceObject::new`
unfoldable pub new_virtio_device : KernelObjectId → String → String → VirtioDeviceObject
new_virtio_device id name transport = record {
  id = id;
  name = name;
  transport = transport;
  owner = no_process;
  queue_size = 0;
  avail_idx = 0;
  used_idx = 0;
  submissions = 0;
  completions = 0;
  timeouts = 0;
  reset_count = 0;
  last_error = "none";
}

pub record NetworkPortObject : Type 0 where
  pub id : KernelObjectId
  pub name : String
  pub queue : MessageQueue

-- `NetworkPortObject::new`
unfoldable pub new_network_port : KernelObjectId → String → NetworkPortObject
new_network_port id name = record { id = id; name = name; queue = empty_queue }
