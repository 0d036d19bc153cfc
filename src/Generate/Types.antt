-- ===== src/Generate/Types.antt =====
-- The data of a generation: `GenerationStats`, `StopReason` and `StopConditions`, which session.rs and
-- generate.rs declare alike.
use Prim.Native.String.{String}
use mo_earc.Common.{ℕ, List}

pub data StopReason : Type 0 where
  end_of_turn length cancelled : StopReason

unfoldable pub as_openai : StopReason → String
as_openai StopReason.end_of_turn = "stop"
as_openai StopReason.cancelled = "stop"
as_openai StopReason.length = "length"

pub record GenerationStats : Type 0 where
  pub prompt_tokens : ℕ
  pub completion_tokens : ℕ
  pub stop_reason : StopReason

pub record StopConditions : Type 0 where
  pub max_tokens : ℕ
  pub stop_tokens : List ℕ
