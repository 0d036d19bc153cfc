-- ===== src/HostBudget/Built.antt =====
-- Every budget that can be had: built by default or by request, and then set any number of times.
use mo_earc.Common.{
  ℕ, ◌+◌, ◌-◌, ◌≤◌, ◌≡◌, refl, ap, ◌∙◌, arith, min, sub64_exact, Option, none, some,
}
use mo_earc.Common.Float.{Float, ShareBounded, exact_max}
use mo_earc.HostBudget.Budget.{
  HostMemory, BudgetPolicy, HostBudget, take_from, ceiling, default_for, request, set_bytes,
  max_bytes,
}
use mo_earc.HostBudget.Bounds.{take_from-le}

-- The budgets for a machine and a policy, with what was asked for last.
pub data IsBuilt (fl : Float) (memory : HostMemory) (policy : BudgetPolicy fl.F64)
    : Option ℕ → HostBudget fl.F64 → Type 0 where
  by_default : IsBuilt fl memory policy none (default_for fl memory policy)
  by_request : (want : ℕ) → IsBuilt fl memory policy (some want) (request fl memory policy want)
  by_set :
      (last : Option ℕ) (b : HostBudget fl.F64) (want : ℕ)
      → IsBuilt fl memory policy last b
      → IsBuilt fl memory policy (some want) (set_bytes fl b want)

-- What is granted of the bytes that are left.
unfoldable pub granted : Option ℕ → ℕ → ℕ
granted none left = left
granted (some want) left = min want left

module _ (fl : Float) (memory : HostMemory) (policy : BudgetPolicy fl.F64) where
  -- A budget of this machine and policy that grants the last wish and leaves the reserve alone.
  pub record IsWithin (last : Option ℕ) (b : HostBudget fl.F64) : Type 0 where
    pub same_memory : b.memory ≡ memory
    pub same_policy : b.policy ≡ policy
    pub grants :
        b.bytes
        ≡ granted last (memory.available_bytes - take_from fl policy.reserve memory.available_bytes)
    pub spares_reserve :
        b.bytes + take_from fl policy.reserve memory.available_bytes ≤ memory.available_bytes

  module _ (bounded : ShareBounded fl) (small : memory.available_bytes ≤ exact_max) where
    reserve-le : take_from fl policy.reserve memory.available_bytes ≤ memory.available_bytes
    reserve-le = take_from-le fl bounded policy.reserve memory.available_bytes small

    ceiling_exact :
        ceiling fl memory policy
        ≡ memory.available_bytes - take_from fl policy.reserve memory.available_bytes
    unfolding ceiling
    ceiling_exact = omega (
      arith,
      sub64_exact memory.available_bytes (take_from fl policy.reserve memory.available_bytes)
          reserve-le (omega arith),
    )

    max_bytes-ceiling :
        (b : HostBudget fl.F64)
        → b.memory ≡ memory
        → b.policy ≡ policy
        → max_bytes fl b ≡ ceiling fl memory policy
    unfolding max_bytes
    max_bytes-ceiling b m p = ap (λ x. ceiling fl x b.policy) m ∙ ap (λ x. ceiling fl memory x) p

    -- For at most 2^53 available bytes, and a share of `f64` that does not exceed the whole: a budget that is
    -- built by default or by request and then set any number of times keeps the machine and the policy;
    -- it is what was asked for last, or all that the reserve leaves of the available bytes where less is left
    -- or nothing was asked for; and with what the reserve holds back it is within the available bytes.
    pub IsBuilt-IsWithin :
        (last : Option ℕ) (b : HostBudget fl.F64)
        → IsBuilt fl memory policy last b
        → IsWithin last b
    unfolding default_for request set_bytes granted
    IsBuilt-IsWithin _ _ by_default = record {
      same_memory = refl;
      same_policy = refl;
      grants = ceiling_exact;
      spares_reserve = omega (arith, ceiling_exact, reserve-le);
    }
    IsBuilt-IsWithin _ _ (by_request want) = record {
      same_memory = refl;
      same_policy = refl;
      grants = ground (arith, ceiling_exact);
      spares_reserve = ground (arith, ceiling_exact, reserve-le);
    }
    IsBuilt-IsWithin _ _ (by_set last b want before) =
        let kept = IsBuilt-IsWithin last b before in
        let top = max_bytes-ceiling b kept.same_memory kept.same_policy in
        record {
          same_memory = kept.same_memory;
          same_policy = kept.same_policy;
          grants = omega (arith, top, ceiling_exact);
          spares_reserve = omega (arith, top, ceiling_exact, reserve-le);
        }
