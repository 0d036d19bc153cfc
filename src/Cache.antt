-- ===== src/Cache.antt =====
-- crates/moearc-engine/src/cache.rs: the pool of resident experts, and what must move for a step.
-- `Types` has the data, `Pool` the operations; the other children prove.
pub mod Types
pub mod Pool
pub mod Victim
pub mod Occupancy
pub mod Invariant
pub mod Fetch
pub mod Step
pub mod Turn
pub mod Distinct
pub mod Sorted
pub mod Slots
pub mod Admit
mod Tests
