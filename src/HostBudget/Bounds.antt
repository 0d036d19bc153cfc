-- ===== src/HostBudget/Bounds.antt =====
-- The ceiling leaves the reserve alone, and the step of the interface suits the ceiling.
use mo_earc.Common.{ℕ, ◌+◌, ◌*◌, ◌/◌, ◌≤◌, ◌<◌, ◌≡◌, arith, sub64_exact, div_ceil_bounds, u64_max}
use mo_earc.Common.Float.{Float, ShareBounded, exact_max}
use mo_earc.HostBudget.Budget.{
  Reserve, HostBudget, take_from, ceiling, max_bytes, reserved_bytes, step_bytes, gib,
}

module _ (fl : Float) (bounded : ShareBounded fl) where
  pub take_from-le :
      (r : Reserve fl.F64) (available : ℕ)
      → available ≤ exact_max
      → take_from fl r available ≤ available
  unfolding take_from
  take_from-le (Reserve.fraction f) available small = bounded f available small
  take_from-le (Reserve.bytes b) available small = omega arith

  -- For at most 2^53 available bytes, and a share of `f64` that does not exceed the whole: the ceiling
  -- and the reserve share the available bytes exactly.
  pub max_bytes-reserved_bytes :
      (b : HostBudget fl.F64)
      → b.memory.available_bytes ≤ exact_max
      → max_bytes fl b + reserved_bytes fl b ≡ b.memory.available_bytes
  unfolding max_bytes reserved_bytes ceiling
  max_bytes-reserved_bytes b small =
      let le = take_from-le b.policy.reserve b.memory.available_bytes small in
      omega (
        arith,
        sub64_exact b.memory.available_bytes
            (take_from fl b.policy.reserve b.memory.available_bytes) le (omega arith),
        le,
      )

-- For a ceiling in machine range: a step of the interface is at least one gibibyte, 32 steps come to
-- within 32 bytes of the ceiling or pass it, and pass it by at most 32 gibibytes.
pub step_bytes_bounds :
    (fl : Float) (b : HostBudget fl.F64)
    → max_bytes fl b ≤ u64_max
    → (gib ≤ step_bytes fl b)
      × (max_bytes fl b < 32 * step_bytes fl b + 32)
      × (32 * step_bytes fl b ≤ max_bytes fl b + 32 * gib)
unfolding step_bytes
step_bytes_bounds fl b range =
    let d = div_ceil_bounds (max_bytes fl b / 32) gib (omega arith) in
    (omega (arith, d.0, d.1), omega (arith, d.0, d.1), omega (arith, d.0, d.1))
