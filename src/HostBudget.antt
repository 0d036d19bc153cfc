-- ===== src/HostBudget.antt =====
-- crates/moearc-engine/src/host_budget.rs: how much host RAM the engine may use, and what that means
-- for one model. `Budget` has the budget, `Placing` the verdicts on a model; the other children prove.
pub mod Budget
pub mod Placing
pub mod Bounds
pub mod Built
pub mod Verdicts
mod Tests
