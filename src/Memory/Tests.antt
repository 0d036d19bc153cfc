-- ===== src/Memory/Tests.antt =====
-- The planner on a card of 12 GiB, with the model of the unit tests of memory.rs.
use mo_earc.Common.{ℕ, ◌*◌, ◌≤◌, ◌≡◌, ◌↔◌, refl, arith, div_ceil, none, [], ◌∷◌, u32_max}
use mo_earc.Common.Float.{hundredths, hundredths-ShareBounded, ceil_share}
use mo_earc.Common.Results.{ok, err}
use mo_earc.Memory.Types.{
  DeviceMemory, ModelFootprint, Bias, Headroom, Policy, Context, Reason, Allocation,
  context_too_small,
}
use mo_earc.Memory.Planner.{
  validate, Terms, terms, policy_cap, pages_for, check_floors, slots_within, first_resident,
  pages_beside, give_back, yield_slots, settle, is_policy_limit, residency_reason, context_reason,
  floor_reason, allocation, finish, allocate, reserve_from, plan,
}
use mo_earc.Memory.Yield.{GaveBack, give_back-GaveBack}
use mo_earc.Memory.Sound.{IsMachine}
use mo_earc.Memory.Plan.{IsPlan, plan-IsPlan, IsAffordable, plan-iff-IsAffordable}
use mo_earc.Memory.Llama.{
  BlockGeometry, LlamaSplit, check_geometry, split_of, llama_split, plan_llama,
}
use mo_earc.Memory.Blocks.{IsSplit, plan_llama-IsSplit}
use mo_earc.Memory.Rationale.{context_reason-eq-nil_iff}

program : Unit {0}
unfolding validate terms policy_cap check_floors slots_within first_resident pages_beside give_back
    yield_slots settle is_policy_limit residency_reason context_reason floor_reason allocation
    finish allocate reserve_from plan ceil_share div_ceil
program = tt

abbrev card : DeviceMemory
card = record { total_bytes = 12884901888; free_bytes = 12884901888 }

abbrev mixture : ModelFootprint
mixture = record {
  dense_weights_bytes = 2147483648;
  per_expert_bytes = 100663296;
  total_experts = 128;
  active_experts = 8;
  kv_bytes_per_token = 98304;
}

abbrev defaults : Policy ℕ
defaults = record {
  headroom = Headroom.fraction 12;
  page_tokens = 256;
  min_context_tokens = 2048;
  bias = Bias.experts;
  max_resident_experts = none;
}

abbrev planned : Allocation
planned = record {
  resident_experts = 89;
  context_tokens = 2304;
  kv_pages = 9;
  expert_bytes = 8959033344;
  kv_bytes = 226492416;
  headroom_bytes = 1546188227;
  rationale =
      Reason.budget 12884901888 1546188227 2147483648 9191230013
      ∷ Reason.experts_limited_by_memory 89 128
      ∷ Reason.slack 5704253
      ∷ [];
}

plan_largest : plan hundredths card mixture defaults Context.largest ≡ ok planned
unfolding program
plan_largest = refl

-- A request below the policy's minimum is refused on an empty card too.
small_request :
    plan hundredths card mixture defaults (Context.tokens 512) ≡ err (context_too_small 512 2048)
unfolding program
small_request = refl

mixture-IsMachine : IsMachine mixture defaults
mixture-IsMachine = record { total_small = omega arith; min_context_small = omega arith }

plan-IsPlan_example : IsPlan card mixture defaults Context.largest planned
plan-IsPlan_example =
    plan-IsPlan hundredths card mixture defaults Context.largest hundredths-ShareBounded
      (omega arith) mixture-IsMachine plan_largest

plan-iff-IsAffordable_example :
    ((a : Allocation) × (plan hundredths card mixture defaults (Context.tokens 20000) ≡ ok a))
    ↔ IsAffordable hundredths card mixture defaults (Context.tokens 20000)
plan-iff-IsAffordable_example =
    plan-iff-IsAffordable hundredths card mixture defaults (Context.tokens 20000)
      hundredths-ShareBounded (omega arith) mixture-IsMachine (omega arith)

-- 20000 tokens are 79 pages of 24 MiB; 8 experts of 96 MiB are the floor.
abbrev tight : Terms
tight = record {
  per_expert_bytes = 100663296;
  active_experts = 8;
  total_experts = 128;
  floor_bytes = 805306368;
  cap = 128;
  page_tokens = 256;
  bytes_per_page = 25165824;
  min_pages = 8;
  min_kv_bytes = 201326592;
}

give_back-GaveBack_example :
    GaveBack tight 9191230013 79 89
      (give_back tight 9191230013 79 89 (pages_beside tight 9191230013 89))
give_back-GaveBack_example =
    give_back-GaveBack tight 9191230013 79 89 (pages_beside tight 9191230013 89) (omega arith)
      (omega arith) refl

gives_back : give_back tight 9191230013 79 89 (pages_beside tight 9191230013 89) ≡ (71, 81)
unfolding program
gives_back = refl

context_reason-eq-nil_iff_example :
    (context_reason tight 9191230013 (Context.tokens 20000) (pages_for 20000 256) ≡ [])
    ↔ (pages_for 20000 256 * 256 ≤ u32_max)
context_reason-eq-nil_iff_example =
    context_reason-eq-nil_iff tight 9191230013 20000 (omega arith) (omega arith) (omega arith)

-- The largest request that `u32` can name, in pages of 256: served whole, reported as reduced to 0.
reported_as_reduced :
    context_reason tight 0 (Context.tokens 4294967295) (pages_for 4294967295 256)
    ≡ Reason.context_limited_by_memory 0 4294967295 ∷ []
unfolding program
reported_as_reduced = refl

-- 89 slots are 11 whole blocks of 8, and 5 of 16 blocks stay on the host.
abbrev blocks : BlockGeometry
blocks = record { moe_blocks = 16; experts_per_block = 8 }

abbrev split : LlamaSplit
split = record {
  n_cpu_moe = 5;
  gpu_expert_blocks = 11;
  moe_blocks = 16;
  context_tokens = 2304;
  slots_used = 88;
  slots_planned = 89;
  slots_dropped_to_whole_blocks = 1;
  expert_bytes_on_gpu = 8858370048;
}

planned_for_llama :
    plan_llama hundredths card mixture blocks defaults Context.largest ≡ ok (planned, split)
unfolding program plan_llama llama_split check_geometry split_of
planned_for_llama = refl

plan_llama-IsSplit_example :
    IsPlan card mixture defaults Context.largest planned × IsSplit planned mixture blocks split
plan_llama-IsSplit_example =
    plan_llama-IsSplit hundredths card mixture blocks defaults Context.largest
      hundredths-ShareBounded (omega arith) mixture-IsMachine planned_for_llama
