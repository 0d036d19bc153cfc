-- ===== src/Device/Types.antt =====
-- A report of the devices, and the live readings of their memory. A UUID is its 16 bytes as one number.
use Prim.Native.String.{String}
use mo_earc.Common.{ℕ, Bool, Option, List}

pub record GpuDevice : Type 0 where
  pub name : String
  pub vendor_id : ℕ
  pub device_id : ℕ
  pub uuid : ℕ
  pub is_integrated : Bool
  pub total_memory_bytes : ℕ
  pub max_alloc_bytes : ℕ
  pub driver_version : ℕ
  pub compute_units : ℕ
  pub max_total_group_size : ℕ
  pub subgroup_sizes : List ℕ
  pub pci_address : Option String

pub record PciDevice : Type 0 where
  pub address : String
  pub vendor_id : ℕ
  pub device_id : ℕ
  pub class_code : ℕ
  pub kernel_driver : Option String
  pub drm_card : Option String
  pub drm_render_node : Option String
  pub boot_vga : Bool

pub record DeviceReport : Type 0 where
  pub devices : List GpuDevice
  pub loader : String
  pub driver_count : ℕ
  pub non_gpu_devices : ℕ
  pub pci_display_devices : List PciDevice
  pub unusable_hardware : List PciDevice

pub data MemoryHealth : Type 0 where
  unknown ok degraded critical replace_needed : MemoryHealth
  other : ℕ → MemoryHealth

pub record MemoryModule : Type 0 where
  pub physical_bytes : Option ℕ
  pub free_bytes : ℕ
  pub on_device : Bool
  pub health : MemoryHealth

pub record DeviceTelemetry : Type 0 where
  pub uuid : ℕ
  pub memory : List MemoryModule

pub data BudgetSource : Type 0 where
  measured_free installed_vram : BudgetSource

pub record VramBudget : Type 0 where
  pub bytes : ℕ
  pub source : BudgetSource

pub data LocalMemoryEvidence : Type 0 where
  not_measured : LocalMemoryEvidence
  none_on_device : Option ℕ → LocalMemoryEvidence

pub data Unusable : Type 0 where
  shares_host_memory : String → ℕ → Option ℕ → LocalMemoryEvidence → Unusable

pub record NoUsableDevice : Type 0 where
  pub refusals : List Unusable
  pub hardware_not_enumerated : List PciDevice
  pub runtime_build : Option ℕ
