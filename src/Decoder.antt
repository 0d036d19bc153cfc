-- ===== src/Decoder.antt =====
-- `IncrementalDecoder` of crates/moearc-server/src/tokenize.rs, which streams the text of a completion.
pub mod Push
pub mod Stream
mod Tests
