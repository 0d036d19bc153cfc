-- ===== src/Tensors.antt =====
-- crates/moearc-model/src/tensors.rs: views of the tensors of a mapped file, and slices of them. `Views`
-- has the data and the functions; the other children prove.
pub mod Views
pub mod Slices
mod Tests
