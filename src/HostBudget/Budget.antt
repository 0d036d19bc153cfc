-- ===== src/HostBudget/Budget.antt =====
-- The machine and the budget of host_budget.rs.
use mo_earc.Common.{ℕ, ◌/◌, min, max, ltb, if◌then◌else◌, sub64, mul64, div_ceil}
use mo_earc.Common.Float.{Float, ceil_share}

pub record HostMemory : Type 0 where
  pub total_bytes : ℕ
  pub available_bytes : ℕ

pub record Storage : Type 0 where
  pub free_bytes : ℕ

pub data Reserve (F : Type 0) : Type 0 where
  fraction : F → Reserve F
  bytes : ℕ → Reserve F

pub record BudgetPolicy (F : Type 0) : Type 0 where
  pub reserve : Reserve F

pub data BudgetSource : Type 0 where
  by_default requested : BudgetSource
  clamped : ℕ → BudgetSource

pub record HostBudget (F : Type 0) : Type 0 where
  pub bytes : ℕ
  pub memory : HostMemory
  pub policy : BudgetPolicy F
  pub source : BudgetSource

abbrev pub gib : ℕ
gib = 1073741824

module _ (fl : Float) where
  unfoldable pub take_from : Reserve fl.F64 → ℕ → ℕ
  take_from (Reserve.fraction f) available = ceil_share fl f available
  take_from (Reserve.bytes b) available = min b available

  unfoldable pub ceiling : HostMemory → BudgetPolicy fl.F64 → ℕ
  ceiling memory policy =
      sub64 memory.available_bytes (take_from policy.reserve memory.available_bytes)

  unfoldable pub default_for : HostMemory → BudgetPolicy fl.F64 → HostBudget fl.F64
  default_for memory policy = record {
    bytes = ceiling memory policy;
    memory = memory;
    policy = policy;
    source = BudgetSource.by_default;
  }

  unfoldable pub request : HostMemory → BudgetPolicy fl.F64 → ℕ → HostBudget fl.F64
  request memory policy want =
      let top = ceiling memory policy in
      let over = ltb top want in
      record {
        bytes = if over then top else want;
        memory = memory;
        policy = policy;
        source = if over then BudgetSource.clamped want else BudgetSource.requested;
      }

  unfoldable pub max_bytes : HostBudget fl.F64 → ℕ
  max_bytes budget = ceiling budget.memory budget.policy

  unfoldable pub set_bytes : HostBudget fl.F64 → ℕ → HostBudget fl.F64
  set_bytes budget want = record budget {
    bytes = min want (max_bytes budget);
    source = BudgetSource.requested;
  }

  unfoldable pub reserved_bytes : HostBudget fl.F64 → ℕ
  reserved_bytes budget = take_from budget.policy.reserve budget.memory.available_bytes

  unfoldable pub step_bytes : HostBudget fl.F64 → ℕ
  step_bytes budget = mul64 (max (div_ceil (max_bytes budget / 32) gib) 1) gib
