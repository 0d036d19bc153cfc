-- ===== src/HostBudget/Verdicts.antt =====
-- What the verdicts on a model mean.
use mo_earc.Common.{
  ℕ, ◌+◌, ◌*◌, ◌-◌, ◌/◌, ◌≤◌, ◌<◌, ◌≡◌, ◌↔◌, ◌⊎◌, inl, inr, refl, arith, min, Bool, true, false,
  ltb, Bool-cases, u32_max, u64_max, to_u32, sub32, ◌==◌, dec_lt, fits_of_le-div, le-div_of_fits,
  mul-le_right,
}
use mo_earc.Memory.Types.{ModelFootprint}
use mo_earc.HostBudget.Budget.{Storage, HostBudget}
use mo_earc.HostBudget.Placing.{
  ModelBytes, Tier, Placement, place_here, place_model, HostResidency, host_residency, is_hazardous,
  routing_backing, runs,
}

-- What a placement says, in terms of the sizes alone.
pub record IsPlacement (weights budget : ℕ) (p : Placement) : Type 0 where
  pub whole : p.ram_bytes + p.disk_bytes ≡ weights
  pub within : p.ram_bytes ≤ budget
  pub from_ram : (p.tier ≡ Tier.runs_from_ram) ↔ (weights ≤ budget)
  pub from_disk : (p.tier ≡ Tier.runs_pages_from_disk) ↔ (budget < weights)
  pub will_run : runs p.tier ≡ true

-- For weights in machine range.
pub place_here-IsPlacement :
    (weights budget : ℕ)
    → weights ≤ u64_max
    → IsPlacement weights budget (place_here weights budget)
unfolding place_here runs
place_here-IsPlacement weights budget range = record {
  whole = ground arith;
  within = ground arith;
  from_ram = ground arith;
  from_disk = ground arith;
  will_run = ground arith;
}

-- For weights of at most 2^64 - 1 bytes: a model that cannot run is not here and does not fit the free
-- space; any other is here or fits, and its placement splits the weights between RAM and the drive:
-- all in RAM exactly when the budget holds them.
pub place_model-IsPlacement :
    {F : Type 0} (model : ModelBytes) (budget : HostBudget F) (storage : Storage)
    → model.weights_bytes ≤ u64_max
    → ((runs (place_model model budget storage).tier ≡ false)
        × (model.on_disk ≡ false)
        × (storage.free_bytes < model.weights_bytes))
      ⊎ (((model.on_disk ≡ true) ⊎ (model.weights_bytes ≤ storage.free_bytes))
          × IsPlacement model.weights_bytes budget.bytes (place_model model budget storage))
unfolding place_model runs
place_model-IsPlacement model budget storage range = elim (Bool-cases model.on_disk) [
  | inl here ↦
      inr (inl here, rw here (place_here-IsPlacement model.weights_bytes budget.bytes range))
  | inr away ↦ elim (Bool-cases (ltb storage.free_bytes model.weights_bytes)) [
    | inl more ↦ inl (rw (away, more) refl, away, ground arith)
    | inr fits ↦ inr (
      inr (ground arith),
      rw (away, fits) (place_here-IsPlacement model.weights_bytes budget.bytes range),
    )
  ]
]

-- What the budget keeps of the experts that VRAM does not hold: whole slots, as many as the budget
-- pays for and no more than there are.
pub record IsResidency (bytes per_expert not_in_vram : ℕ) (r : HostResidency) : Type 0 where
  pub split : r.slots + r.cold_slots ≡ not_in_vram
  pub paid : per_expert * r.slots ≤ bytes
  pub exact : r.bytes ≡ per_expert * r.slots
  pub most : (r.cold_slots ≡ 0) ⊎ (bytes < per_expert * (r.slots + 1))
  pub covers : (r.covers_all_misses ≡ true) ↔ (r.cold_slots ≡ 0)

-- The slots that are left cold are past what the budget pays for.
most_slots :
    (bytes per n c : ℕ)
    → 0 < per
    → n ≤ u32_max
    → c ≡ min (to_u32 (bytes / per)) n
    → (n - c ≡ 0) ⊎ (bytes < per * (c + 1))
most_slots bytes per n c pos small e = elim (dec_lt bytes (per * (c + 1))) [
  | yes short ↦ inr short
  | no paid ↦
      let more = le-div_of_fits bytes per (c + 1) (omega arith) (omega arith) in inl (omega arith)
]

paid_slots : (bytes per n c : ℕ) → c ≡ min (to_u32 (bytes / per)) n → per * c ≤ bytes
paid_slots bytes per n c e = omega (arith, fits_of_le-div bytes per c (omega arith))

covers_iff : (n c : ℕ) → c ≤ n → n ≤ u32_max → ((c == n) ≡ true) ↔ (sub32 n c ≡ 0)
covers_iff n c below small = ground arith

-- For experts of some bytes, and a budget and a count of experts in machine range.
pub host_residency-IsResidency :
    {F : Type 0} (budget : HostBudget F) (model : ModelFootprint) (vram : ℕ)
    → 0 < model.per_expert_bytes
    → budget.bytes ≤ u64_max
    → model.total_experts ≤ u32_max
    → IsResidency budget.bytes model.per_expert_bytes
        (model.total_experts - vram)
        (host_residency budget model vram)
unfolding host_residency
host_residency-IsResidency budget model vram pos range small =
    let per = model.per_expert_bytes in
    let n = model.total_experts - vram in
    let c = min (to_u32 (budget.bytes / per)) n in
    let some_bytes : (per == 0) ≡ false = ground arith in
    let paid = paid_slots budget.bytes per n c refl in
    let below : c ≤ n = omega arith in
    let cold : sub32 n c ≡ n - c = omega arith in
    rw some_bytes (record {
      split = omega (arith, below, small);
      paid = paid;
      exact = omega (arith, paid, range);
      most = rw cold (most_slots budget.bytes per n c pos (omega arith) refl);
      covers = covers_iff n c below (omega arith);
    })

cold_iff :
    (bytes per n : ℕ) (r : HostResidency)
    → IsResidency bytes per n r
    → (0 < r.cold_slots) ↔ (bytes < per * n)
cold_iff bytes per n r is = (
  λ cold. elim is.most [
    | inl none_cold ↦ absurd (omega arith)
    | inr short ↦
        omega (arith, short, mul-le_right per (r.slots + 1) n (omega (arith, is.split, cold)))
  ],
  λ short. elim (zero_or_pos r.cold_slots) [
    | inl none_cold ↦
        let all : r.slots ≡ n = omega (arith, is.split, none_cold) in
        let paid : per * n ≤ bytes = rw (← all) is.paid in absurd (omega arith)
    | inr cold ↦ cold
  ],
)
  where
    zero_or_pos : (k : ℕ) → (k ≡ 0) ⊎ (0 < k)
    zero_or_pos k = omega arith

hazardous_iff :
    (routes : Bool) (r : HostResidency)
    → (is_hazardous (routing_backing routes r) ≡ true) ↔ ((routes ≡ true) × (0 < r.cold_slots))
unfolding is_hazardous routing_backing
hazardous_iff true r = ground arith
hazardous_iff false r = ground arith

-- For experts of some bytes, and a budget and a count of experts in machine range: routing to the host
-- is reported as hazardous exactly when something is routed and the budget does not pay for every
-- expert that VRAM does not hold.
pub is_hazardous-routing_backing :
    {F : Type 0} (routes : Bool) (budget : HostBudget F) (model : ModelFootprint) (vram : ℕ)
    → 0 < model.per_expert_bytes
    → budget.bytes ≤ u64_max
    → model.total_experts ≤ u32_max
    → (is_hazardous (routing_backing routes (host_residency budget model vram)) ≡ true)
      ↔ ((routes ≡ true) × (budget.bytes < model.per_expert_bytes * (model.total_experts - vram)))
is_hazardous-routing_backing routes budget model vram pos range small =
    let r = host_residency budget model vram in
    let is = host_residency-IsResidency budget model vram pos range small in
    let per = model.per_expert_bytes in
    let n = model.total_experts - vram in
    let (there, back) = hazardous_iff routes r in
    let (short, cold) = cold_iff budget.bytes per n r is in
    (λ h. ((there h).0, short (there h).1), λ h. back (h.0, cold h.1))
