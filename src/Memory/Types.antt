-- ===== src/Memory/Types.antt =====
-- The data of memory.rs: what the planner is told, what it decides, and how it fails.
use Prim.Native.String.{String}
use mo_earc.Common.Results.{Result}
use mo_earc.Common.{ℕ, Bool, Option, List, leb, add64}

pub record DeviceMemory : Type 0 where
  pub total_bytes : ℕ
  pub free_bytes : ℕ

pub record ModelFootprint : Type 0 where
  pub dense_weights_bytes : ℕ
  pub per_expert_bytes : ℕ
  pub total_experts : ℕ
  pub active_experts : ℕ
  pub kv_bytes_per_token : ℕ

pub data Bias : Type 0 where
  experts context : Bias

-- `Fraction` holds an `f64`, of the type `F`.
pub data Headroom (F : Type 0) : Type 0 where
  fraction : F → Headroom F
  bytes : ℕ → Headroom F

pub record Policy (F : Type 0) : Type 0 where
  pub headroom : Headroom F
  pub page_tokens : ℕ
  pub min_context_tokens : ℕ
  pub bias : Bias
  pub max_resident_experts : Option ℕ

pub data Context : Type 0 where
  tokens : ℕ → Context
  largest : Context

-- The fields stand in the order of the source.
pub data Reason : Type 0 where
  budget : ℕ → ℕ → ℕ → ℕ → Reason
  all_experts_resident : ℕ → Reason
  experts_limited_by_memory : ℕ → ℕ → Reason
  experts_limited_by_policy : ℕ → ℕ → Reason
  context_limited_by_memory : ℕ → ℕ → Reason
  experts_yielded_to_context : ℕ → ℕ → Reason
  context_at_policy_floor : ℕ → Reason
  slack : ℕ → Reason

pub record Allocation : Type 0 where
  pub resident_experts : ℕ
  pub context_tokens : ℕ
  pub kv_pages : ℕ
  pub expert_bytes : ℕ
  pub kv_bytes : ℕ
  pub headroom_bytes : ℕ
  pub rationale : List Reason

unfoldable pub committed_bytes : Allocation → ModelFootprint → ℕ
committed_bytes a model = add64 (add64 model.dense_weights_bytes a.expert_bytes) a.kv_bytes

unfoldable pub is_fully_resident : Allocation → ModelFootprint → Bool
is_fully_resident a model = leb model.total_experts a.resident_experts

pub data PlanError : Type 0 where
  invalid_model : String → PlanError
  invalid_policy : String → PlanError
  weights_do_not_fit : ℕ → ℕ → PlanError
  cannot_hold_active_experts : ℕ → ℕ → ℕ → PlanError
  context_too_small : ℕ → ℕ → PlanError
  context_does_not_fit : ℕ → ℕ → PlanError

abbrev pub Planned {ℓ} : Type ℓ → Type ℓ
Planned A = Result PlanError A
