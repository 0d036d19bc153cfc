-- ===== src/Device/Tests.antt =====
-- An integrated device that is enumerated first, and a discrete card with a live reading.
use mo_earc.Common.{◌≡◌, refl, true, false, none, some, List, [], ◌∷◌}
use mo_earc.Common.Results.{ok}
use mo_earc.Device.Types.{
  GpuDevice, DeviceReport, MemoryHealth, DeviceTelemetry, BudgetSource, VramBudget,
}
use mo_earc.Device.Fitness.{
  preferred, first_discrete, reading_for, inference_target, discrete_first, of_class, first_fit,
  vram_budget, measured, free_device_memory_bytes, free_of, free_from, modules,
}
use mo_earc.Device.Target.{IsBudget, inference_target-preferred}
use mo_earc.Device.Answer.{IsAnswer, inference_target-IsAnswer}

abbrev integrated : GpuDevice
integrated = record {
  name = "igpu";
  vendor_id = 0x8086;
  device_id = 0x7d67;
  uuid = 1;
  is_integrated = true;
  total_memory_bytes = 91890372608;
  max_alloc_bytes = 4294967296;
  driver_version = 17010844;
  compute_units = 64;
  max_total_group_size = 1024;
  subgroup_sizes = 16 ∷ 32 ∷ [];
  pci_address = none;
}

abbrev card : GpuDevice
card = record {
  name = "b580";
  vendor_id = 0x8086;
  device_id = 0xe20b;
  uuid = 2;
  is_integrated = false;
  total_memory_bytes = 12168933376;
  max_alloc_bytes = 11530000000;
  driver_version = 17010844;
  compute_units = 160;
  max_total_group_size = 1024;
  subgroup_sizes = 16 ∷ 32 ∷ [];
  pci_address = some "0000:04:00.0";
}

abbrev report : DeviceReport
report = record {
  devices = integrated ∷ card ∷ [];
  loader = "libze_loader.so.1";
  driver_count = 1;
  non_gpu_devices = 0;
  pci_display_devices = [];
  unusable_hardware = [];
}

abbrev readings : List DeviceTelemetry
readings =
    record {
      uuid = 2;
      memory =
          record {
            physical_bytes = none;
            free_bytes = 11000000000;
            on_device = true;
            health = MemoryHealth.unknown;
          }
          ∷ [];
    }
    ∷ []

takes_the_card :
    inference_target none report readings
    ≡ ok (card, record { bytes = 11000000000; source = BudgetSource.measured_free })
unfolding inference_target discrete_first of_class first_fit vram_budget measured reading_for
    free_device_memory_bytes free_of free_from modules
takes_the_card = refl

card-preferred : preferred report ≡ some card
unfolding preferred first_discrete
card-preferred = refl

inference_target-IsAnswer_example :
    IsAnswer none readings report (inference_target none report readings)
inference_target-IsAnswer_example = inference_target-IsAnswer none readings report

inference_target-preferred_example :
    (b : VramBudget) × (inference_target none report readings ≡ ok (card, b))
    × IsBudget card (reading_for readings card) b
inference_target-preferred_example =
    inference_target-preferred none readings report card-preferred refl
