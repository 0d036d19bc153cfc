-- ===== src/Residency/Types.antt =====
-- The data of the simulator. Hash maps are association lists and hash sets are lists. The counters and
-- the clock advance by one for each demand, and do not wrap; `Step` is a `Vec<ExpertRef>`.
use Prim.Native.String.{String}
use mo_earc.Common.{ℕ, ◌==◌, if◌then◌else◌, Option, List}
use mo_earc.Cache.Types.{ExpertRef}

pub record Trace : Type 0 where
  pub steps : List (List ExpertRef)

pub data Policy : Type 0 where
  lru lfu optimal : Policy
  static_split : ℕ → Policy
  slru : ℕ → Policy
  two_q : ℕ → ℕ → Policy
  lru_k : ℕ → Policy
  pinned_hot : ℕ → ℕ → Policy
  phase_lru : Policy
  w_tiny_lfu : ℕ → ℕ → Policy

unfoldable pub name : Policy → String
name Policy.lru = "lru"
name Policy.lfu = "lfu"
name Policy.optimal = "optimal (belady)"
name (Policy.static_split resident_layers) = "static split"
name (Policy.slru protected_pct) = "slru"
name (Policy.two_q kin_pct kout_pct) = "2q"
name (Policy.lru_k k) = "lru-k"
name (Policy.pinned_hot pin_pct warmup_steps) = "pinned-hot"
name Policy.phase_lru = "phase-lru"
name (Policy.w_tiny_lfu window_pct protected_pct) =
    if window_pct == 0 then "tinylfu" else "w-tinylfu"

pub record Residency : Type 0 where
  pub policy : String
  pub capacity : ℕ
  pub steps : ℕ
  pub demands : ℕ
  pub hits : ℕ
  pub misses : ℕ
  pub compulsory_misses : ℕ
  pub bytes_fetched : ℕ

pub data SimError : Type 0 where
  capacity_below_peak_demand : ℕ → ℕ → SimError
  zero_capacity : SimError
  static_split_exceeds_capacity : ℕ → ℕ → ℕ → SimError

pub data Seg : Type 0 where
  window probation protected : Seg

pub data Order : Type 0 where
  recency arrival : Order

pub record NextUse : Type 0 where
  pub occurrences : List (ExpertRef × List ℕ)

pub record Cache : Type 0 where
  pub capacity : ℕ
  pub policy : Policy
  pub resident : List ExpertRef
  pub member : List ExpertRef
  pub last_used : List (ExpertRef × ℕ)
  pub prev_used : List (ExpertRef × ℕ)
  pub use_count : List (ExpertRef × ℕ)
  pub seg_stamp : List (ExpertRef × ℕ)
  pub arrival : List (ExpertRef × ℕ)
  pub seg : List (ExpertRef × Seg)
  pub n_window : ℕ
  pub n_protected : ℕ
  pub tick : ℕ
  pub window_cap : ℕ
  pub protected_cap : ℕ
  pub freq : List (ExpertRef × ℕ)
  pub freq_samples : ℕ
  pub freq_window : ℕ
  pub ghost : List ExpertRef
  pub ghost_set : List ExpertRef
  pub ghost_cap : ℕ
  pub hot : List ExpertRef
  pub step_used : List (ExpertRef × ℕ)
  pub cur_step : ℕ
  pub n_layers : ℕ
  pub next_use : Option NextUse
