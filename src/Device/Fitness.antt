-- ===== src/Device/Fitness.antt =====
-- The budget of a device, and the choice of one. The RAM of the machine, which is read from a file, is a
-- parameter.
use mo_earc.Common.{
  ℕ, ◌%◌, min, sat_add64, Bool, true, false, not, ◌&&◌, ltb, ◌==◌, if◌then◌else◌, Option, none,
  some, List, [], ◌∷◌, ◌++◌,
}
use mo_earc.Common.Results.{Result, ok, err}
use mo_earc.Device.Types.{
  GpuDevice, PciDevice, DeviceReport, MemoryModule, DeviceTelemetry, BudgetSource, VramBudget,
  LocalMemoryEvidence, not_measured, none_on_device, Unusable, shares_host_memory, NoUsableDevice,
}

-- `filter(|m| m.on_device == here)`
unfoldable pub modules : Bool → List MemoryModule → List MemoryModule
modules here [] = []
modules here (m ∷ ms) =
    let rest = modules here ms in
    if (if here then m.on_device else not m.on_device) then m ∷ rest else rest

-- The `fold` of `free_device_memory_bytes`.
unfoldable pub free_from : ℕ → List MemoryModule → ℕ
free_from acc [] = acc
free_from acc (m ∷ ms) = free_from (sat_add64 acc m.free_bytes) ms

unfoldable pub free_of : List MemoryModule → Option ℕ
free_of [] = none
free_of (m ∷ ms) = some (free_from 0 (m ∷ ms))

unfoldable pub free_device_memory_bytes : DeviceTelemetry → Option ℕ
free_device_memory_bytes t = free_of (modules true t.memory)

-- The loop of `host_memory_bytes`; the total is `none` while no capacity is known.
unfoldable pub physical_from : Option ℕ → List MemoryModule → Option ℕ
physical_from total [] = total
physical_from total (m ∷ ms) =
    physical_from
      (elim m.physical_bytes [
        | none ↦ total
        | some physical ↦ elim total [
          | none ↦ some (sat_add64 0 physical)
          | some t ↦ some (sat_add64 t physical)
        ]
      ])
      ms

unfoldable pub host_memory_bytes : DeviceTelemetry → Option ℕ
host_memory_bytes t = physical_from none (modules false t.memory)

-- `driver_version & 0xFFFF`
unfoldable pub driver_build : GpuDevice → ℕ
driver_build d = d.driver_version % 0x1_0000

abbrev pub verified_runtime_build : ℕ
verified_runtime_build = 37020

-- The observed build, where it is older.
unfoldable pub runtime_caution : GpuDevice → Option ℕ
runtime_caution d =
    if ltb (driver_build d) verified_runtime_build then some (driver_build d) else none

unfoldable pub first_discrete : List GpuDevice → Option GpuDevice
first_discrete [] = none
first_discrete (d ∷ ds) = let rest = first_discrete ds in if d.is_integrated then rest else some d

unfoldable pub preferred : DeviceReport → Option GpuDevice
preferred report = elim (first_discrete report.devices) [
  | some d ↦ some d
  | none ↦ elim report.devices [ [] ↦ none | ◌∷◌ d ds ↦ some d ]
]

-- `live.and_then(DeviceTelemetry::free_device_memory_bytes)`
unfoldable pub measured : Option DeviceTelemetry → Option ℕ
measured none = none
measured (some reading) = free_device_memory_bytes reading

unfoldable pub evidence : Option DeviceTelemetry → LocalMemoryEvidence
evidence none = not_measured
evidence (some reading) = none_on_device (host_memory_bytes reading)

unfoldable pub reading_for : List DeviceTelemetry → GpuDevice → Option DeviceTelemetry
reading_for [] device = none
reading_for (r ∷ rs) device =
    let rest = reading_for rs device in if r.uuid == device.uuid then some r else rest

unfoldable pub of_class : Bool → List GpuDevice → List GpuDevice
of_class integrated [] = []
of_class integrated (d ∷ ds) =
    let rest = of_class integrated ds in
    if (if integrated then d.is_integrated else not d.is_integrated) then d ∷ rest else rest

-- `sort_by_key(|d| d.is_integrated)`, which is stable.
unfoldable pub discrete_first : List GpuDevice → List GpuDevice
discrete_first ds = of_class false ds ++ of_class true ds

unfoldable pub is_some : {A : Type 0} → Option A → Bool
is_some none = false
is_some (some a) = true

unfoldable pub driven_cards : List PciDevice → List PciDevice
driven_cards [] = []
driven_cards (c ∷ cs) =
    let rest = driven_cards cs in
    if is_some c.kernel_driver && is_some c.drm_render_node then c ∷ rest else rest

unfoldable pub hardware_the_runtime_did_not_expose : DeviceReport → List PciDevice
hardware_the_runtime_did_not_expose report = driven_cards report.unusable_hardware

unfoldable pub first_build : List GpuDevice → Option ℕ
first_build [] = none
first_build (d ∷ ds) = some (driver_build d)

module _ (host_ram_bytes : Option ℕ) where
  unfoldable pub vram_budget : GpuDevice → Option DeviceTelemetry → Result Unusable VramBudget
  vram_budget device live = elim (measured live) [
    | some free ↦
        ok (record {
          bytes = min free device.total_memory_bytes;
          source = BudgetSource.measured_free;
        })
    | none ↦
        if device.is_integrated
        then err (
            shares_host_memory device.name device.total_memory_bytes host_ram_bytes (evidence live))
        else ok (record { bytes = device.total_memory_bytes; source = BudgetSource.installed_vram })
  ]

  -- The loop of `inference_target`: the first device with a budget, or every refusal.
  unfoldable pub first_fit :
      List DeviceTelemetry
      → List GpuDevice
      → List Unusable
      → Result (List Unusable) (GpuDevice × VramBudget)
  first_fit readings [] refusals = err refusals
  first_fit readings (d ∷ ds) refusals = elim (vram_budget d (reading_for readings d)) [
    | ok budget ↦ ok (d, budget)
    | err refusal ↦ first_fit readings ds (refusals ++ (refusal ∷ []))
  ]

  unfoldable pub inference_target :
      DeviceReport → List DeviceTelemetry → Result NoUsableDevice (GpuDevice × VramBudget)
  inference_target report readings = elim (first_fit readings (discrete_first report.devices) []) [
    | ok target ↦ ok target
    | err refusals ↦ err (record {
      refusals = refusals;
      hardware_not_enumerated = hardware_the_runtime_did_not_expose report;
      runtime_build = first_build report.devices;
    })
  ]
