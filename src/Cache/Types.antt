-- ===== src/Cache/Types.antt =====
-- The data of cache.rs, and `ExpertRef` of residency.rs.
use mo_earc.Common.{ℕ, ◌≡◌, ◌↔◌, arith, Bool, ◌&&◌, ◌==◌, Option, List, Eq}

pub record ExpertRef : Type 0 where
  pub layer : ℕ
  pub expert : ℕ

unfoldable pub expert_eq : ExpertRef → ExpertRef → Bool
expert_eq a b = a.layer == b.layer && a.expert == b.expert

pub expert_eq_iff : (a b : ExpertRef) → (expert_eq a b ≡ Bool.true) ↔ (a ≡ b)
unfolding expert_eq
expert_eq_iff a b = ground arith

instance abbrev pub expert_ref_eq : Eq ExpertRef
expert_ref_eq = record { beq = expert_eq; beq_iff = expert_eq_iff }

pub record Load : Type 0 where
  pub expert : ExpertRef
  pub into_slot : ℕ
  pub evicted : Option ExpertRef

pub record StepPlan : Type 0 where
  pub hits : List (ExpertRef × ℕ)
  pub loads : List Load

pub data CacheError : Type 0 where
  step_exceeds_capacity : ℕ → ℕ → CacheError
  zero_capacity : CacheError

-- `Result<T, CacheError>`, or a panic (`expect`, or an index out of bounds).
pub data Outcome {ℓ} (A : Type ℓ) : Type ℓ where
  ok : A → Outcome A
  err : CacheError → Outcome A
  panic : Outcome A

pub record CacheStats : Type 0 where
  pub steps : ℕ
  pub demands : ℕ
  pub hits : ℕ
  pub misses : ℕ
  pub evictions : ℕ

abbrev pub no_stats : CacheStats
no_stats = record { steps = 0; demands = 0; hits = 0; misses = 0; evictions = 0 }

-- The two hash maps are association lists. The clock and the counters advance by one for each
-- demand, and stand for `u64` values that no run brings near 2^64.
pub record ExpertCache : Type 0 where
  pub capacity : ℕ
  pub occupant : List (Option ExpertRef)
  pub slot_of : List (ExpertRef × ℕ)
  pub last_used : List (ExpertRef × ℕ)
  pub clock : ℕ
  pub stats : CacheStats
