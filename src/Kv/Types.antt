-- ===== src/Kv/Types.antt =====
-- The data of kv.rs.
use Prim.Native.String.{String}
use mo_earc.Common.{ℕ, sub32, List}

pub data KvError : Type 0 where
  exhausted : ℕ → ℕ → KvError
  unknown_sequence : ℕ → KvError
  context_limit : ℕ → ℕ → ℕ → KvError
  invalid_geometry : String → KvError

-- `Result<T, KvError>`, or a panic (`expect`, or an index out of bounds).
pub data Outcome {ℓ} (A : Type ℓ) : Type ℓ where
  ok : A → Outcome A
  err : KvError → Outcome A
  panic : Outcome A

pub record SeqPages : Type 0 where
  pub pages : List ℕ
  pub tokens : ℕ

pub record KvUsage : Type 0 where
  pub total_pages : ℕ
  pub used_pages : ℕ
  pub sequences : ℕ
  pub slack_tokens : ℕ

unfoldable pub free_pages : KvUsage → ℕ
free_pages u = sub32 u.total_pages u.used_pages

-- `free` is the stack of free pages, its top first: the end of the source's `Vec`. The map of
-- sequences is an association list.
pub record PagedKvCache : Type 0 where
  pub page_tokens : ℕ
  pub context_limit : ℕ
  pub free : List ℕ
  pub seqs : List (ℕ × SeqPages)
  pub total_pages : ℕ
