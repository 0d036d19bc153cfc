-- ===== src/Residency/Simulate.antt =====
-- `Cache::new`, the end of a step, and the loops of `simulate`.
use mo_earc.Common.{
  ℕ, ◌+◌, ◌-◌, ◌*◌, ◌/◌, max, min, add64, Bool, true, false, ◌&&◌, ◌||◌, ltb, ◌==◌, if◌then◌else◌,
  Option, none, some, List, [], ◌∷◌, length, take, contains,
}
use mo_earc.Common.Results.{Result, ok, err}
use mo_earc.Cache.Types.{ExpertRef, expert_ref_eq}
use mo_earc.Cache.Pool.{expert_le, distinct_of}
use mo_earc.Residency.Types.{Trace, Policy, name, Residency, SimError, Cache}
use mo_earc.Residency.Trace.{flatten, max_layer, peak_step_demand, experts_in_layers_below}
use mo_earc.Residency.NextUse.{build}
use mo_earc.Residency.Segments.{note_access}
use mo_earc.Residency.Policies.{on_hit, on_miss}

unfoldable pub pct : ℕ → ℕ → ℕ
pct p of = of * min p 100 / 100

-- The shares of a policy: the window, the protected segment, the ghosts, and the slots.
pub record Shares : Type 0 where
  pub window_cap : ℕ
  pub protected_cap : ℕ
  pub ghost_cap : ℕ
  pub budget : ℕ

unfoldable pub shares : Policy → ℕ → Shares
shares (Policy.slru protected_pct) cap = record {
  window_cap = 0;
  protected_cap = pct protected_pct cap;
  ghost_cap = 0;
  budget = cap;
}
shares (Policy.two_q kin_pct kout_pct) cap = record {
  window_cap = max (pct kin_pct cap) 1;
  protected_cap = 0;
  ghost_cap = max (cap * kout_pct / 100) 1;
  budget = cap;
}
shares (Policy.w_tiny_lfu window_pct protected_pct) cap =
    let budget = max (cap - 1) 1 in
    let w = pct window_pct budget in
    record {
      window_cap = w;
      protected_cap = pct protected_pct (budget - w);
      ghost_cap = 0;
      budget = budget;
    }
shares other cap = record { window_cap = 0; protected_cap = 0; ghost_cap = 0; budget = cap }

unfoldable pub is_optimal : Policy → Bool
is_optimal Policy.optimal = true
is_optimal other = false

unfoldable pub new_cache : ℕ → Policy → Trace → Cache
new_cache capacity policy trace =
    let s = shares policy capacity in
    record {
      capacity = s.budget;
      policy = policy;
      resident = [];
      member = [];
      last_used = [];
      prev_used = [];
      use_count = [];
      seg_stamp = [];
      arrival = [];
      seg = [];
      n_window = 0;
      n_protected = 0;
      tick = 0;
      window_cap = s.window_cap;
      protected_cap = s.protected_cap;
      freq = [];
      freq_samples = 0;
      freq_window = capacity * 10;
      ghost = [];
      ghost_set = [];
      ghost_cap = s.ghost_cap;
      hot = [];
      step_used = [];
      cur_step = 0;
      n_layers = max_layer (flatten trace.steps) + 1;
      next_use = if is_optimal policy then some (build trace) else none;
    }

-- By count, descending, and then by expert.
unfoldable pub ranks_before : ExpertRef × ℕ → ExpertRef × ℕ → Bool
ranks_before (a, m) (b, n) = ltb n m || (m == n && expert_le a b)

unfoldable pub insert_ranked : ExpertRef × ℕ → List (ExpertRef × ℕ) → List (ExpertRef × ℕ)
insert_ranked r [] = r ∷ []
insert_ranked r (q ∷ qs) = if ranks_before r q then r ∷ q ∷ qs else q ∷ insert_ranked r qs

unfoldable pub ranked : List (ExpertRef × ℕ) → List (ExpertRef × ℕ)
ranked [] = []
ranked (r ∷ rs) = insert_ranked r (ranked rs)

unfoldable pub experts_of : List (ExpertRef × ℕ) → List ExpertRef
experts_of [] = []
experts_of ((e, n) ∷ rs) = e ∷ experts_of rs

unfoldable pub pin_hot : Policy → Cache → ℕ → Cache
pin_hot (Policy.pinned_hot pin_pct warmup_steps) c step_idx =
    if step_idx + 1 == warmup_steps
    then record c {
      hot = experts_of (take (c.capacity * min pin_pct 95 / 100) (ranked c.use_count));
    }
    else c
pin_hot other c step_idx = c

unfoldable pub end_of_step : Cache → ℕ → Cache
end_of_step c step_idx = pin_hot c.policy c step_idx

-- The variables of the loops.
pub record Run : Type 0 where
  pub cache : Cache
  pub ever_seen : List ExpertRef
  pub clock : ℕ
  pub stats : Residency

unfoldable pub count_demand : Residency → Residency
count_demand s = record s { demands = s.demands + 1 }

unfoldable pub count_hit : Residency → Residency
count_hit s = record s { hits = s.hits + 1 }

unfoldable pub count_miss : ℕ → Residency → Residency
count_miss per_expert_bytes s = record s {
  misses = s.misses + 1;
  bytes_fetched = add64 s.bytes_fetched per_expert_bytes;
}

-- `if ever_seen.insert(e, ()).is_none() { … }`
unfoldable pub note_first : Run → ExpertRef → Run
note_first r e = if contains r.ever_seen e then r else record r {
  ever_seen = e ∷ r.ever_seen;
  stats = record (r.stats) { compulsory_misses = r.stats.compulsory_misses + 1 };
}

-- The clock, the counters and the notes of a demand.
unfoldable pub arrive : Run → ExpertRef → Run
arrive r e = record r {
  clock = r.clock + 1;
  stats = count_demand r.stats;
  cache = note_access r.cache e (r.clock + 1);
}

unfoldable pub serve_hit : Run → ExpertRef → List ExpertRef → Run
serve_hit r e pinned = record r { stats = count_hit r.stats; cache = on_hit r.cache e pinned }

unfoldable pub serve_miss : ℕ → List ExpertRef → ℕ → Run → ExpertRef → Option Run
serve_miss per_expert_bytes pinned step_idx r e =
    let noted = note_first (record r { stats = count_miss per_expert_bytes r.stats }) e in
    elim (on_miss noted.cache e pinned step_idx) [
      | none ↦ none
      | some c ↦ some (record noted { cache = c })
    ]

-- One demand of a step.
unfoldable pub serve_demand : ℕ → List ExpertRef → ℕ → Run → ExpertRef → Option Run
serve_demand per_expert_bytes pinned step_idx r e =
    let here = arrive r e in
    if contains here.cache.member e
    then some (serve_hit here e pinned)
    else serve_miss per_expert_bytes pinned step_idx here e

unfoldable pub demand_all : ℕ → List ExpertRef → ℕ → List ExpertRef → Run → Option Run
demand_all per_expert_bytes pinned step_idx [] r = some r
demand_all per_expert_bytes pinned step_idx (e ∷ es) r =
    elim (serve_demand per_expert_bytes pinned step_idx r e) [
      | none ↦ none
      | some r' ↦ demand_all per_expert_bytes pinned step_idx es r'
    ]

unfoldable pub replay : ℕ → ℕ → List (List ExpertRef) → Run → Option Run
replay per_expert_bytes step_idx [] r = some r
replay per_expert_bytes step_idx (s ∷ ss) r =
    let started : Run = record r { cache = record (r.cache) { cur_step = step_idx } } in
    elim (demand_all per_expert_bytes (distinct_of s) step_idx s started) [
      | none ↦ none
      | some r' ↦
          replay per_expert_bytes (step_idx + 1) ss
            (record r' { cache = end_of_step r'.cache step_idx })
    ]

unfoldable pub static_step : ℕ → ℕ → List ExpertRef → Residency → Residency
static_step resident_layers per_expert_bytes [] s = s
static_step resident_layers per_expert_bytes (e ∷ es) s =
    static_step resident_layers per_expert_bytes es (
      if ltb e.layer resident_layers
      then count_hit (count_demand s)
      else count_miss per_expert_bytes (count_demand s))

unfoldable pub static_run : ℕ → ℕ → List (List ExpertRef) → Residency → Residency
static_run resident_layers per_expert_bytes [] s = s
static_run resident_layers per_expert_bytes (step ∷ steps) s =
    static_run resident_layers per_expert_bytes steps
      (static_step resident_layers per_expert_bytes step s)

unfoldable pub no_residency : Trace → ℕ → Policy → Residency
no_residency trace capacity policy = record {
  policy = name policy;
  capacity = capacity;
  steps = length trace.steps;
  demands = 0;
  hits = 0;
  misses = 0;
  compulsory_misses = 0;
  bytes_fetched = 0;
}

unfoldable pub simulate_cached : Trace → ℕ → Policy → ℕ → Option (Result SimError Residency)
simulate_cached trace capacity policy per_expert_bytes =
    elim (replay per_expert_bytes 0 trace.steps (record {
      cache = new_cache capacity policy trace;
      ever_seen = [];
      clock = 0;
      stats = no_residency trace capacity policy;
    })) [ none ↦ none | some r ↦ some (ok r.stats) ]

unfoldable pub simulate_static : Trace → ℕ → ℕ → ℕ → Result SimError Residency
simulate_static trace capacity resident_layers per_expert_bytes =
    let needs = experts_in_layers_below trace resident_layers in
    if ltb capacity needs
    then err (SimError.static_split_exceeds_capacity needs capacity resident_layers)
    else ok (
        static_run resident_layers per_expert_bytes trace.steps
          (no_residency trace capacity (Policy.static_split resident_layers)))

unfoldable pub simulate_policy : Trace → ℕ → Policy → ℕ → Option (Result SimError Residency)
simulate_policy trace capacity (Policy.static_split resident_layers) per_expert_bytes =
    some (simulate_static trace capacity resident_layers per_expert_bytes)
simulate_policy trace capacity policy per_expert_bytes =
    simulate_cached trace capacity policy per_expert_bytes

-- `none` is a panic.
unfoldable pub simulate : Trace → ℕ → Policy → ℕ → Option (Result SimError Residency)
simulate trace capacity policy per_expert_bytes =
    let peak = peak_step_demand trace in
    if capacity == 0
    then some (err SimError.zero_capacity)
    else if ltb capacity peak
    then some (err (SimError.capacity_below_peak_demand capacity peak))
    else simulate_policy trace capacity policy per_expert_bytes

unfoldable pub avoidable_misses : Residency → ℕ
avoidable_misses s = s.misses - s.compulsory_misses
