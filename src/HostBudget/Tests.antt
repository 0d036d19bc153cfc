-- ===== src/HostBudget/Tests.antt =====
-- A machine of 64 GiB, 60 GiB of it available, and a fifth held back.
use mo_earc.Common.{
  ◌+◌, ◌*◌, ◌-◌, ◌≤◌, ◌<◌, ◌≡◌, ◌↔◌, ◌⊎◌, refl, arith, true, false, some, u64_max, ℕ,
}
use mo_earc.Common.Float.{hundredths, hundredths-ShareBounded, ceil_share}
use mo_earc.Memory.Types.{ModelFootprint}
use mo_earc.HostBudget.Budget.{
  HostMemory, Storage, Reserve, BudgetPolicy, BudgetSource, HostBudget, take_from, ceiling,
  default_for, request, max_bytes, set_bytes, reserved_bytes, step_bytes, gib,
}
use mo_earc.HostBudget.Placing.{
  ModelBytes, place_model, runs, host_residency, is_hazardous, routing_backing,
}
use mo_earc.HostBudget.Bounds.{max_bytes-reserved_bytes, step_bytes_bounds}
use mo_earc.HostBudget.Built.{IsBuilt, by_set, by_request, IsWithin, IsBuilt-IsWithin}
use mo_earc.HostBudget.Verdicts.{IsPlacement, place_model-IsPlacement, is_hazardous-routing_backing}

abbrev machine : HostMemory
machine = record { total_bytes = 68719476736; available_bytes = 64424509440 }

abbrev fifth : BudgetPolicy ℕ
fifth = record { reserve = Reserve.fraction 20 }

abbrev budget : HostBudget ℕ
budget = record {
  bytes = 51539607552;
  memory = machine;
  policy = fifth;
  source = BudgetSource.by_default;
}

default_budget : default_for hundredths machine fifth ≡ budget
unfolding default_for ceiling take_from ceil_share
default_budget = refl

abbrev experts : ModelFootprint
experts = record {
  dense_weights_bytes = 2147483648;
  per_expert_bytes = 1073741824;
  total_experts = 128;
  active_experts = 8;
  kv_bytes_per_token = 98304;
}

-- 48 of the 68 experts outside VRAM are covered.
some_cold : (host_residency budget experts 60).cold_slots ≡ 20
unfolding host_residency
some_cold = refl

max_bytes-reserved_bytes_example :
    max_bytes hundredths budget + reserved_bytes hundredths budget ≡ 64424509440
max_bytes-reserved_bytes_example =
    max_bytes-reserved_bytes hundredths hundredths-ShareBounded budget (omega arith)

-- A request of too much, and then a change.
set_after_request :
    IsBuilt hundredths machine fifth
      (some 5)
      (set_bytes hundredths (request hundredths machine fifth 99999999999) 5)
set_after_request = by_set (some 99999999999) _ 5 (by_request 99999999999)

IsBuilt-IsWithin_example :
    IsWithin hundredths machine fifth
      (some 5)
      (set_bytes hundredths (request hundredths machine fifth 99999999999) 5)
IsBuilt-IsWithin_example =
    IsBuilt-IsWithin hundredths machine fifth hundredths-ShareBounded (omega arith) (some 5)
      (set_bytes hundredths (request hundredths machine fifth 99999999999) 5) set_after_request

max_in_range : max_bytes hundredths budget ≤ u64_max
unfolding max_bytes ceiling take_from ceil_share
max_in_range = omega arith

step_bytes_bounds_example :
    (gib ≤ step_bytes hundredths budget)
    × (max_bytes hundredths budget < 32 * step_bytes hundredths budget + 32)
    × (32 * step_bytes hundredths budget ≤ max_bytes hundredths budget + 32 * gib)
step_bytes_bounds_example = step_bytes_bounds hundredths budget max_in_range

abbrev large : ModelBytes
large = record { weights_bytes = 60000000000; on_disk = true }

abbrev drive : Storage
drive = record { free_bytes = 1000 }

place_model-IsPlacement_example :
    ((runs (place_model large budget drive).tier ≡ false)
      × (large.on_disk ≡ false)
      × (drive.free_bytes < large.weights_bytes))
    ⊎ (((large.on_disk ≡ true) ⊎ (large.weights_bytes ≤ drive.free_bytes))
        × IsPlacement large.weights_bytes budget.bytes (place_model large budget drive))
place_model-IsPlacement_example = place_model-IsPlacement large budget drive (omega arith)

is_hazardous-routing_backing_example :
    (is_hazardous (routing_backing true (host_residency budget experts 60)) ≡ true)
    ↔ ((true ≡ true) × (budget.bytes < experts.per_expert_bytes * (experts.total_experts - 60)))
is_hazardous-routing_backing_example =
    is_hazardous-routing_backing true budget experts 60 (omega arith) (omega arith) (omega arith)
