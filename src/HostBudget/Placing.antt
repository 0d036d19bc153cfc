-- ===== src/HostBudget/Placing.antt =====
-- The verdicts of host_budget.rs on one model.
use Prim.Native.String.{String}
use mo_earc.Common.{
  ℕ, ◌/◌, ◌-◌, min, Bool, true, false, not, ◌&&◌, ltb, ◌==◌, if◌then◌else◌, sub64, sub32, sat_mul64,
  to_u32, add32,
}
use mo_earc.Memory.Types.{ModelFootprint}
use mo_earc.HostBudget.Budget.{Storage, HostBudget}

pub record ModelBytes : Type 0 where
  pub weights_bytes : ℕ
  pub on_disk : Bool

pub data Tier : Type 0 where
  runs_from_ram runs_pages_from_disk will_not_fit : Tier

unfoldable pub tier_label : Tier → String
tier_label Tier.runs_from_ram = "runs from RAM"
tier_label Tier.runs_pages_from_disk = "runs, pages from disk"
tier_label Tier.will_not_fit = "won't fit"

unfoldable pub runs : Tier → Bool
runs Tier.runs_from_ram = true
runs Tier.runs_pages_from_disk = true
runs Tier.will_not_fit = false

-- `Reason` of host_budget.rs.
pub data TierReason : Type 0 where
  within_budget : ℕ → ℕ → TierReason
  over_budget : ℕ → ℕ → ℕ → TierReason
  no_room_to_fetch : ℕ → ℕ → TierReason

pub record Placement : Type 0 where
  pub tier : Tier
  pub reason : TierReason
  pub ram_bytes : ℕ
  pub disk_bytes : ℕ

-- The two placements of a model that is here or can be fetched.
unfoldable pub place_here : ℕ → ℕ → Placement
place_here weights budget_bytes =
    let ram = min weights budget_bytes in
    let disk = sub64 weights ram in
    if disk == 0
    then record {
      tier = Tier.runs_from_ram;
      reason = TierReason.within_budget weights budget_bytes;
      ram_bytes = ram;
      disk_bytes = disk;
    }
    else record {
      tier = Tier.runs_pages_from_disk;
      reason = TierReason.over_budget weights budget_bytes disk;
      ram_bytes = ram;
      disk_bytes = disk;
    }

unfoldable pub place_model : {F : Type 0} → ModelBytes → HostBudget F → Storage → Placement
place_model model budget storage =
    if not model.on_disk && ltb storage.free_bytes model.weights_bytes
    then record {
      tier = Tier.will_not_fit;
      reason = TierReason.no_room_to_fetch model.weights_bytes storage.free_bytes;
      ram_bytes = 0;
      disk_bytes = 0;
    }
    else place_here model.weights_bytes budget.bytes

pub record HostResidency : Type 0 where
  pub slots : ℕ
  pub bytes : ℕ
  pub cold_slots : ℕ
  pub covers_all_misses : Bool

unfoldable pub host_residency : {F : Type 0} → HostBudget F → ModelFootprint → ℕ → HostResidency
host_residency budget model vram_resident_slots =
    let not_in_vram = model.total_experts - vram_resident_slots in
    let affordable = to_u32 (budget.bytes / model.per_expert_bytes) in
    let covered = min affordable not_in_vram in
    if model.per_expert_bytes == 0
    then record { slots = 0; bytes = 0; cold_slots = 0; covers_all_misses = false }
    else record {
      slots = covered;
      bytes = sat_mul64 model.per_expert_bytes covered;
      cold_slots = sub32 not_in_vram covered;
      covers_all_misses = covered == not_in_vram;
    }

pub data HostRouting : Type 0 where
  unknown not_routing fully_backed : HostRouting
  partly_unbacked : ℕ → ℕ → HostRouting

unfoldable pub is_hazardous : HostRouting → Bool
is_hazardous (HostRouting.partly_unbacked cold of) = true
is_hazardous other = false

unfoldable pub routing_label : HostRouting → String
routing_label HostRouting.unknown = "host memory not measured"
routing_label HostRouting.not_routing = "nothing routed host-side"
routing_label HostRouting.fully_backed = "host routing backed by RAM"
routing_label (HostRouting.partly_unbacked cold of) = "host routing exceeds the RAM budget"

unfoldable pub routing_backing : Bool → HostResidency → HostRouting
routing_backing false residency = HostRouting.not_routing
routing_backing true residency =
    if residency.cold_slots == 0
    then HostRouting.fully_backed
    else HostRouting.partly_unbacked residency.cold_slots
        (add32 residency.slots residency.cold_slots)
