-- ===== src/Lib.antt =====
-- A model of MoEArc, which serves mixture-of-experts models from a card that cannot hold all of
-- their experts. The reader of GGUF files takes the model's sizes and tensors from its header.
-- The planner decides how many experts stay resident and how much context is served, and the host
-- budget how much of the rest is kept in RAM; the expert cache then moves experts through the
-- slots that the planner bought, and the paged KV cache hands out the pages. A generation runs
-- through a session, which sends one command at a time to the thread that owns the model; the
-- incremental decoder turns its tokens into text. The simulator of residency replays recorded
-- demands under other policies, and the fitness of a device says which card is planned against.
--
-- The files:
-- * Common.antt (children Tests, Words, Lists, Maps, Sets, Sums, Float, Results) — shared names;
--   Boolean tests, machine arithmetic, lists, lists as sets, maps as association lists, sums, and
--   f64 as a parameter.
-- * Memory.antt — crates/moearc-engine/src/memory.rs: `plan` and its phases in Memory/Planner,
--   `plan_llama` in Memory/Llama, the data in Memory/Types.
-- * Cache.antt — crates/moearc-engine/src/cache.rs: `ExpertCache` and `StepPlan` in Cache/Pool,
--   the data in Cache/Types.
-- * Kv.antt — crates/moearc-engine/src/kv.rs: `PagedKvCache` in Kv/Pages, the data in Kv/Types.
-- * HostBudget.antt — crates/moearc-engine/src/host_budget.rs: the budget in HostBudget/Budget,
--   the verdicts on a model in HostBudget/Placing.
-- * Gguf.antt — crates/moearc-model/src/gguf.rs and quant.rs: the table of types in Gguf/Quant,
--   `Reader` in Gguf/Reader, `read` in Gguf/Header.
-- * Tensors.antt — crates/moearc-model/src/tensors.rs: the views and `slice_last_dim` in
--   Tensors/Views.
-- * Generate.antt — crates/moearc-engine/src/session.rs and crates/moearc-server/src/generate.rs:
--   the data in Generate/Types, `drive` in Generate/Drive, the device thread (`worker`) in
--   Generate/Device, `Session` in Generate/Session, `argmax` and `generate` in Generate/Greedy.
-- * Residency.antt — crates/moearc-engine/src/residency.rs: the data in Residency/Types, what is
--   asked of a trace in Residency/Trace, `NextUse` in Residency/NextUse, the methods of `Cache`
--   in Residency/Segments and Residency/Policies, `simulate` in Residency/Simulate.
-- * Device.antt — crates/moearc-device/src/fitness.rs, with parts of lib.rs, sysman.rs and
--   pci.rs: the data in Device/Types, `vram_budget` and `inference_target` in Device/Fitness.
-- * Decoder.antt — crates/moearc-server/src/tokenize.rs: `IncrementalDecoder` in Decoder/Push.
--
-- A Rust `Result` is `Result` of Common.Results where the code does not panic; the expert cache
-- and the KV cache have a type of their own with one more constructor `panic`, for where the
-- source indexes, unwraps or `expect`s, and a slice of a view and a miss of the simulator are an
-- `Option` whose `none` is the panic. A generation is returned, has failed, or has used up its
-- fuel. A method on `&mut self` takes the state and returns the new one; on an error the caller
-- keeps the old state, where the source has changed nothing; a session's error says nothing of
-- the thread's state.
--
-- Machine integers are natural numbers. The operators of the source that are not checked wrap
-- (`mul32`, `sub64` and the like, as in a release build), the saturating methods saturate. The
-- clocks and the counters of the expert cache and of the simulator do not wrap in the model, but
-- for the simulator's bytes, and the vectors have no bound. `f64` is a parameter (Common.Float):
-- the model uses a multiplication, a ceiling and a clamp of it, and the theorems that need it
-- assume that a share of a number up to 2^53 is not above the number. A file is the list of its
-- bytes, and text is a list of bytes too (of characters in the decoder); the lossy decoding of
-- UTF-8 is a parameter. Hash maps are association lists; where the source takes a minimum over a
-- map's entries, ties go to the first entry of the list.
--
-- The loop of the planner that gives slots back is structural on the number of slots, the loop of
-- `admit` on the demands, the loops of the reader on the counts that the file declares, and the
-- replay on the trace. The loop of `demote_overflow` runs on fuel, a round for each resident:
-- each round takes one resident out of the protected segment. The loop of a generation runs on
-- fuel, a round for each sampled token: with `max_tokens` rounds it stops by itself, since every
-- round but the last counts one token.
--
-- Not modelled: the texts of errors and reasons, the ratios of `f64` that are only displayed, the
-- GPU kernels and the forward pass (`moe::Model` is a record of what the device thread calls),
-- the start and the teardown of that thread, the tokenizer of a third party, the discovery of
-- devices, the HTTP server and the command line, which are input and output or numeric code.
pub mod Common
pub mod Memory
pub mod Cache
pub mod Kv
pub mod HostBudget
pub mod Gguf
pub mod Tensors
pub mod Generate
pub mod Residency
pub mod Device
pub mod Decoder
