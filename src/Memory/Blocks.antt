-- ===== src/Memory/Blocks.antt =====
-- The split into whole blocks spends no more than the plan did, and no smaller `-ncmoe` would do.
use mo_earc.Common.{
  ℕ, ◌+◌, ◌-◌, ◌*◌, ◌/◌, ◌≤◌, ◌<◌, ◌≡◌, refl, arith, min, not, ◌==◌, mul32, mul64, u32_max, u64_max,
  false, le-div_of_fits, div-mul-le, mul-le_right,
}
use mo_earc.Common.Float.{Float, ShareBounded, exact_max}
use mo_earc.Common.Results.{ok, >>=-eq-ok, refuse, refuse-eq-ok}
use mo_earc.Memory.Types.{DeviceMemory, ModelFootprint, Policy, Context, Allocation}
use mo_earc.Memory.Planner.{plan}
use mo_earc.Memory.Sound.{IsMachine}
use mo_earc.Memory.Plan.{IsPlan, plan-IsPlan}
use mo_earc.Memory.Llama.{
  BlockGeometry, LlamaSplit, check_geometry, split_of, llama_split, plan_llama,
}

-- What the split promises about the plan that it translates.
pub record IsSplit (alloc : Allocation) (model : ModelFootprint) (geom : BlockGeometry)
    (s : LlamaSplit) : Type 0 where
  pub blocks : s.n_cpu_moe + s.gpu_expert_blocks ≡ geom.moe_blocks
  pub whole : s.slots_used ≡ s.gpu_expert_blocks * geom.experts_per_block
  pub spent : s.slots_used + s.slots_dropped_to_whole_blocks ≡ alloc.resident_experts
  pub dropped : s.slots_dropped_to_whole_blocks < geom.experts_per_block
  pub bytes : s.expert_bytes_on_gpu ≡ model.per_expert_bytes * s.slots_used
  pub within : s.expert_bytes_on_gpu ≤ alloc.expert_bytes
  pub context : s.context_tokens ≡ alloc.context_tokens
  pub least :
      (n : ℕ)
      → (geom.moe_blocks - n) * geom.experts_per_block ≤ alloc.resident_experts
      → s.n_cpu_moe ≤ n

record Geometry (model : ModelFootprint) (geom : BlockGeometry) : Type 0 where
  blocks_pos : 0 < geom.moe_blocks
  experts_pos : 0 < geom.experts_per_block
  slots : geom.moe_blocks * geom.experts_per_block ≡ model.total_experts

check_geometry-Geometry :
    (model : ModelFootprint) (geom : BlockGeometry) {u : Unit {0}}
    → check_geometry model geom ≡ ok u
    → Geometry model geom
unfolding check_geometry
check_geometry-Geometry model geom h =
    let (u1, a, h1) = >>=-eq-ok (refuse (geom.moe_blocks == 0) _) _ h in
    let (u2, b, h2) = >>=-eq-ok (refuse (geom.experts_per_block == 0) _) _ h1 in
    let first : (geom.moe_blocks == 0) ≡ false = refuse-eq-ok _ _ a in
    let second : (geom.experts_per_block == 0) ≡ false = refuse-eq-ok _ _ b in
    let third : not (geom.moe_blocks * geom.experts_per_block == model.total_experts) ≡ false =
      refuse-eq-ok _ _ h2 in
    record { blocks_pos = ground arith; experts_pos = ground arith; slots = ground arith }

-- The quotient of the slots, exactly.
quotient : (r e b : ℕ) → 0 < e → r ≤ b * e → (r / e ≤ b) × (r / e * e ≤ r) × (r < r / e * e + e)
quotient r e b pos le = (grind arith, div-mul-le r e, grind arith)

split_of-IsSplit :
    (alloc : Allocation) (model : ModelFootprint) (geom : BlockGeometry)
    → Geometry model geom
    → model.total_experts ≤ u32_max
    → alloc.resident_experts ≤ model.total_experts
    → alloc.expert_bytes ≡ model.per_expert_bytes * alloc.resident_experts
    → alloc.expert_bytes ≤ u64_max
    → IsSplit alloc model geom (split_of alloc model geom)
unfolding split_of
split_of-IsSplit alloc model geom g small le exact range =
    let r = alloc.resident_experts in
    let e = geom.experts_per_block in
    let (below, low, high) =
      quotient r e geom.moe_blocks g.experts_pos (omega (arith, le, g.slots)) in
    let gpu : min (r / e) geom.moe_blocks ≡ r / e = omega arith in
    let blocks_small : geom.moe_blocks ≤ geom.moe_blocks * e =
      omega (arith, mul-le_right geom.moe_blocks 1 e (omega (arith, g.experts_pos))) in
    let used : mul32 (r / e) e ≡ r / e * e = omega (arith, low, le, small) in
    let bytes_le = mul-le_right model.per_expert_bytes (r / e * e) r low in
    let bytes : mul64 model.per_expert_bytes (r / e * e) ≡ model.per_expert_bytes * (r / e * e) =
      omega (arith, bytes_le, exact, range) in
    rw gpu (
      rw used (
        rw bytes (record {
          blocks = omega (arith, below, blocks_small, g.slots, small);
          whole = refl;
          spent = omega (arith, low, le, small);
          dropped = omega (arith, low, high, le, small);
          bytes = refl;
          within = omega (arith, bytes_le, exact);
          context = refl;
          least = λ n fits. omega (
            arith,
            le-div_of_fits r e (geom.moe_blocks - n) (omega (arith, g.experts_pos)) fits,
            below,
            blocks_small,
            g.slots,
            small,
          );
        })))

-- For a model and a policy in machine range, at most 2^53 free bytes, and a share of `f64` that does
-- not exceed the whole: what `plan_llama` returns is a plan, and its split puts whole blocks on the
-- card, spends no more slots and bytes than the plan, leaves less than one block of slots unspent, and
-- has the least `-ncmoe` whose other blocks fit the planned slots.
pub plan_llama-IsSplit :
    (fl : Float) (device : DeviceMemory) (model : ModelFootprint) (geom : BlockGeometry)
    (policy : Policy fl.F64) (want : Context) {a : Allocation} {s : LlamaSplit}
    → ShareBounded fl
    → device.free_bytes ≤ exact_max
    → IsMachine model policy
    → plan_llama fl device model geom policy want ≡ ok (a, s)
    → IsPlan device model policy want a × IsSplit a model geom s
unfolding plan_llama llama_split
plan_llama-IsSplit fl device model geom policy want {a} {s} bounded small m h =
    let (alloc, planned, rest) = >>=-eq-ok (plan fl device model policy want) _ h in
    let (split, split_ok, last) = >>=-eq-ok (llama_split alloc model geom) _ rest in
    let (u, checked, made) = >>=-eq-ok (check_geometry model geom) _ split_ok in
    let same_alloc : alloc ≡ a = cc in
    let same_split : split_of alloc model geom ≡ s = cc in
    let p = plan-IsPlan fl device model policy want bounded small m planned in
    let is =
      split_of-IsSplit alloc model geom (check_geometry-Geometry model geom checked) m.total_small
        p.sound.resident_le_total p.sound.experts_exact
        (omega (arith, p.within_free, p.sound.fits, small)) in
    rw (← same_split) (rw (← same_alloc) (p, is))
