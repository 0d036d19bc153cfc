-- ===== src/Gguf.antt =====
-- crates/moearc-model/src/gguf.rs and quant.rs: the header of a GGUF file. `Types` has the data, `Quant`
-- the table of tensor types, `Reader` and `Header` the parser; the other children prove.
pub mod Types
pub mod Quant
pub mod Reader
pub mod Header
pub mod Safe
pub mod Inside
pub mod Inner
pub mod Spans
pub mod Parse
pub mod Encode
mod Tests
