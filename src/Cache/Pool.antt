-- ===== src/Cache/Pool.antt =====
-- The operations of cache.rs.
use mo_earc.Common.{
  ℕ, ◌+◌, Bool, true, false, ◌&&◌, ◌||◌, ltb, leb, ◌==◌, if◌then◌else◌, Option, none, some, List,
  [], ◌∷◌, ◌++◌, length, set, replicate, mul64, lookup, insert, remove, keys, contains,
}
use mo_earc.Cache.Types.{
  ExpertRef, expert_eq, expert_ref_eq, Load, StepPlan, Outcome, ok, err, panic, no_stats,
  ExpertCache, step_exceeds_capacity, zero_capacity,
}

unfoldable pub bytes_to_fetch : StepPlan → ℕ → ℕ
bytes_to_fetch plan per_expert_bytes = mul64 (length plan.loads) per_expert_bytes

-- The two loops of `slots_for` that fill the map.
unfoldable pub insert_hits : List (ExpertRef × ℕ) → List (ExpertRef × ℕ) → List (ExpertRef × ℕ)
insert_hits [] m = m
insert_hits ((e, s) ∷ hits) m = insert_hits hits (insert e s m)

unfoldable pub insert_loads : List Load → List (ExpertRef × ℕ) → List (ExpertRef × ℕ)
insert_loads [] m = m
insert_loads (l ∷ loads) m = insert_loads loads (insert l.expert l.into_slot m)

-- `requested.iter().map(|e| map[e])`: `none` is the panic of a missing key.
unfoldable pub slots_in : List (ExpertRef × ℕ) → List ExpertRef → Option (List ℕ)
slots_in m [] = some []
slots_in m (e ∷ requested) = elim (lookup e m) [
  | none ↦ none
  | some s ↦ elim (slots_in m requested) [ none ↦ none | some rest ↦ some (s ∷ rest) ]
]

unfoldable pub slots_for : StepPlan → List ExpertRef → Option (List ℕ)
slots_for plan requested = slots_in (insert_loads plan.loads (insert_hits plan.hits [])) requested

unfoldable pub new : ℕ → Outcome ExpertCache
new capacity =
    if capacity == 0
    then err zero_capacity
    else ok (record {
      capacity = capacity;
      occupant = replicate capacity none;
      slot_of = [];
      last_used = [];
      clock = 0;
      stats = no_stats;
    })

unfoldable pub reset_stats : ExpertCache → ExpertCache
reset_stats c = record c { stats = no_stats }

unfoldable pub resident_count : ExpertCache → ℕ
resident_count c = length c.slot_of

unfoldable pub resident : ExpertCache → ExpertRef → Bool
resident c e = elim (lookup e c.slot_of) [ none ↦ false | some s ↦ true ]

-- The derived order of `ExpertRef`, `sort_unstable` and `dedup`.
unfoldable pub expert_le : ExpertRef → ExpertRef → Bool
expert_le a b = ltb a.layer b.layer || (a.layer == b.layer && leb a.expert b.expert)

unfoldable pub insert_sorted : ExpertRef → List ExpertRef → List ExpertRef
insert_sorted e [] = e ∷ []
insert_sorted e (x ∷ xs) = if expert_le e x then e ∷ x ∷ xs else x ∷ insert_sorted e xs

unfoldable pub sort_unstable : List ExpertRef → List ExpertRef
sort_unstable [] = []
sort_unstable (x ∷ xs) = insert_sorted x (sort_unstable xs)

-- Drops each element that repeats the one kept before it.
unfoldable pub dedup_after : ExpertRef → List ExpertRef → List ExpertRef
dedup_after last [] = []
dedup_after last (x ∷ xs) = elim (expert_eq last x) [
  | true ↦ dedup_after last xs
  | false ↦ x ∷ dedup_after x xs
]

unfoldable pub dedup : List ExpertRef → List ExpertRef
dedup [] = []
dedup (x ∷ xs) = x ∷ dedup_after x xs

unfoldable pub distinct_of : List ExpertRef → List ExpertRef
distinct_of needed = dedup (sort_unstable needed)

unfoldable pub first_empty_from : ℕ → List (Option ExpertRef) → Option ℕ
first_empty_from i [] = none
first_empty_from i (none ∷ slots) = some i
first_empty_from i (some e ∷ slots) = first_empty_from (i + 1) slots

unfoldable pub first_empty_slot : ExpertCache → Option ℕ
first_empty_slot c = first_empty_from 0 c.occupant

-- `last_used.get(e).copied().unwrap_or(0)`
unfoldable pub last_use : List (ExpertRef × ℕ) → ExpertRef → ℕ
last_use used e = elim (lookup e used) [ none ↦ 0 | some time ↦ time ]

-- `filter(|e| !pinned.contains(e))`
unfoldable pub unpinned : List ExpertRef → List ExpertRef → List ExpertRef
unpinned pinned [] = []
unpinned pinned (e ∷ es) =
    let rest = unpinned pinned es in if contains pinned e then rest else e ∷ rest

-- `min_by_key`: the first of the least.
unfoldable pub least_from : (ExpertRef → ℕ) → ExpertRef → List ExpertRef → ExpertRef
least_from key best [] = best
least_from key best (e ∷ es) = least_from key (if ltb (key e) (key best) then e else best) es

unfoldable pub min_by_key : (ExpertRef → ℕ) → List ExpertRef → Option ExpertRef
min_by_key key [] = none
min_by_key key (e ∷ es) = some (least_from key e es)

unfoldable pub lru_victim : ExpertCache → List ExpertRef → Option ExpertRef
lru_victim c pinned = min_by_key (last_use c.last_used) (unpinned pinned (keys c.slot_of))

-- The variables of `admit`'s loop: the cache, the plan, and the experts fetched in this step.
pub record Walk : Type 0 where
  pub cache : ExpertCache
  pub plan : StepPlan
  pub fetched : List ExpertRef

unfoldable pub hit_listed : List (ExpertRef × ℕ) → ExpertRef → Bool
hit_listed [] e = false
hit_listed ((h, s) ∷ hits) e = expert_eq h e || hit_listed hits e

-- The demand is counted, and the clock advances.
unfoldable pub tick : ExpertCache → ExpertCache
tick c = record c {
  clock = c.clock + 1;
  stats = record (c.stats) { demands = c.stats.demands + 1 };
}

-- A hit is listed once, and not if the expert was fetched in this step.
unfoldable pub hit_plan : Walk → ExpertRef → ℕ → StepPlan
hit_plan w e slot =
    if contains w.fetched e
    then w.plan
    else if hit_listed w.plan.hits e
    then w.plan
    else record (w.plan) { hits = w.plan.hits ++ ((e, slot) ∷ []) }

-- The branch of a resident expert.
unfoldable pub hit : Walk → ExpertRef → ℕ → Walk
hit w e slot =
    let c = w.cache in
    record {
      cache = record c {
        last_used = insert e c.clock c.last_used;
        stats = record (c.stats) { hits = c.stats.hits + 1 };
      };
      plan = hit_plan w e slot;
      fetched = w.fetched;
    }

-- Makes `e` the occupant of `slot`, and lists the load.
unfoldable pub place : Walk → ExpertRef → ℕ → Option ExpertRef → Walk
place w e slot evicted =
    let c = w.cache in
    record {
      cache = record c {
        occupant = set c.occupant slot (some e);
        slot_of = insert e slot c.slot_of;
        last_used = insert e c.clock c.last_used;
      };
      plan = record (w.plan) {
        loads = w.plan.loads ++ (record { expert = e; into_slot = slot; evicted = evicted } ∷ []);
      };
      fetched = w.fetched;
    }

-- The victim leaves both maps.
unfoldable pub evict : Walk → ExpertRef → Walk
evict w victim =
    let c = w.cache in
    record w {
      cache = record c {
        slot_of = remove victim c.slot_of;
        last_used = remove victim c.last_used;
        stats = record (c.stats) { evictions = c.stats.evictions + 1 };
      };
    }

-- `self.occupant[slot as usize] = …` panics out of bounds.
unfoldable pub place_checked : Walk → ExpertRef → ℕ → Option ExpertRef → Option Walk
place_checked w e slot evicted =
    if ltb slot (length w.cache.occupant) then some (place w e slot evicted) else none

unfoldable pub fetch : List ExpertRef → Walk → ExpertRef → Option Walk
fetch pinned w e = elim (first_empty_slot w.cache) [
  | some s ↦ place_checked w e s none
  | none ↦ elim (lru_victim w.cache pinned) [
    | none ↦ none
    | some victim ↦ elim (lookup victim w.cache.slot_of) [
      | none ↦ none
      | some s ↦ place_checked (evict w victim) e s (some victim)
    ]
  ]
]

-- The miss is counted, and the expert is marked as fetched.
unfoldable pub miss : Walk → ExpertRef → Walk
miss w e =
    let c = w.cache in
    record w {
      cache = record c { stats = record (c.stats) { misses = c.stats.misses + 1 } };
      fetched = w.fetched ++ (e ∷ []);
    }

-- One turn of the loop; `none` is a panic.
unfoldable pub demand : List ExpertRef → Walk → ExpertRef → Option Walk
demand pinned w e =
    let w' = record w { cache = tick w.cache } in
    elim (lookup e w.cache.slot_of) [
      | some slot ↦ some (hit w' e slot)
      | none ↦ fetch pinned (miss w' e) e
    ]

unfoldable pub walk : List ExpertRef → Walk → List ExpertRef → Option Walk
walk pinned w [] = some w
walk pinned w (e ∷ needed) = elim (demand pinned w e) [
  | none ↦ none
  | some w' ↦ walk pinned w' needed
]

unfoldable pub start : ExpertCache → Walk
start c = record {
  cache = record c { stats = record (c.stats) { steps = c.stats.steps + 1 } };
  plan = record { hits = []; loads = [] };
  fetched = [];
}

unfoldable pub admit : ExpertCache → List ExpertRef → Outcome (ExpertCache × StepPlan)
admit c needed =
    let distinct = distinct_of needed in
    if ltb c.capacity (length distinct)
    then err (step_exceeds_capacity (length distinct) c.capacity)
    else elim (walk distinct (start c) needed) [ none ↦ panic | some w ↦ ok (w.cache, w.plan) ]
