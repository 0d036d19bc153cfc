-- ===== src/Residency.antt =====
-- crates/moearc-engine/src/residency.rs: the simulator that replays a trace of expert demands against a
-- cache of a given capacity, for each of its policies.
pub mod Types
pub mod Trace
pub mod NextUse
pub mod Segments
pub mod Policies
pub mod Simulate
pub mod Members
pub mod Whole
pub mod Misses
pub mod Total
pub mod Account
pub mod Replay
pub mod Tally
pub mod Safe
pub mod Later
pub mod Candidates
pub mod Demote
mod Tests
