-- ===== src/Cache/Tests.antt =====
-- A cache of two slots: the third expert takes the slot of the least recently used one.
use mo_earc.Common.{
  ℕ, zero, suc, get_elem?, ◌≡◌, refl, arith, none, some, List, [], ◌∷◌, lookup, insert, remove,
  keys, contains,
}
use mo_earc.Cache.Types.{
  ExpertRef, expert_eq, expert_eq_iff, expert_ref_eq, ExpertCache, StepPlan, ok, err, no_stats,
  step_exceeds_capacity,
}
use mo_earc.Cache.Pool.{
  insert_hits, insert_loads, slots_in, slots_for, new, expert_le, insert_sorted, sort_unstable,
  dedup_after, dedup, distinct_of, first_empty_from, first_empty_slot, last_use, unpinned,
  least_from, min_by_key, lru_victim, Walk, hit_listed, tick, hit_plan, hit, place, evict,
  place_checked, fetch, miss, demand, walk, start, admit,
}
use mo_earc.Cache.Invariant.{IsValid, new-IsValid}
use mo_earc.Cache.Fetch.{Fetched, fetch_total}
use mo_earc.Cache.Admit.{IsCache, IsServed, admit-IsServed}

program : Unit {0}
unfolding expert_eq lookup insert remove keys contains insert_hits insert_loads slots_in slots_for
    new expert_le insert_sorted sort_unstable dedup_after dedup distinct_of first_empty_from
    first_empty_slot last_use unpinned least_from min_by_key lru_victim hit_listed tick hit_plan hit
    place evict place_checked fetch miss demand walk start admit
program = tt

abbrev first : ExpertRef
first = record { layer = 0; expert = 1 }

abbrev second : ExpertRef
second = record { layer = 0; expert = 2 }

abbrev third : ExpertRef
third = record { layer = 1; expert = 1 }

-- After a step of `first` and `second`, and one of `second` alone.
abbrev full : ExpertCache
full = record {
  capacity = 2;
  occupant = some first ∷ some second ∷ [];
  slot_of = (first, 0) ∷ (second, 1) ∷ [];
  last_used = (first, 1) ∷ (second, 3) ∷ [];
  clock = 3;
  stats = record { steps = 2; demands = 3; hits = 1; misses = 2; evictions = 0 };
}

abbrev empty_pool : ExpertCache
empty_pool = record {
  capacity = 2;
  occupant = none ∷ none ∷ [];
  slot_of = [];
  last_used = [];
  clock = 0;
  stats = no_stats;
}

new_two : new 2 ≡ ok empty_pool
unfolding program
new_two = refl

abbrev filled : ExpertCache
filled = record full {
  last_used = (first, 1) ∷ (second, 2) ∷ [];
  clock = 2;
  stats = record no_stats { steps = 1; demands = 2; misses = 2 };
}

fills :
    admit empty_pool (first ∷ second ∷ [])
    ≡ ok (
      filled,
      record {
        hits = [];
        loads =
            record { expert = first; into_slot = 0; evicted = none }
            ∷ record { expert = second; into_slot = 1; evicted = none }
            ∷ [];
      },
    )
unfolding program
fills = refl

hits_second : admit filled (second ∷ []) ≡ ok (full, record { hits = (second, 1) ∷ []; loads = [] })
unfolding program
hits_second = refl

-- Three experts do not fit in two slots.
refuses : admit full (third ∷ first ∷ third ∷ second ∷ []) ≡ err (step_exceeds_capacity 3 2)
unfolding program
refuses = refl

full-placed :
    (e : ExpertRef) (s : ℕ)
    → lookup e full.slot_of ≡ some s
    → get_elem? full.occupant s ≡ some (some e)
unfolding lookup
full-placed e s h = ground (arith, expert_eq_iff first e, expert_eq_iff second e)

full-listed :
    (e : ExpertRef) (s : ℕ)
    → get_elem? full.occupant s ≡ some (some e)
    → lookup e full.slot_of ≡ some s
unfolding lookup expert_eq
full-listed e zero h = ground (arith, expert_eq_iff first e)
full-listed e (suc zero) h = let same : e ≡ second = cc in rw same differ
  where
    differ : lookup second full.slot_of ≡ some 1
    differ = refl
full-listed e (suc (suc s)) h = cc

full-IsCache : IsCache full
unfolding program
full-IsCache = record {
  valid = record {
    size = refl;
    balance = refl;
    distinct = (refl, (refl, tt));
    placed = full-placed;
    listed = full-listed;
  };
  counted = refl;
}

new-IsValid_example : IsValid empty_pool × (empty_pool.slot_of ≡ [])
new-IsValid_example = new-IsValid 2 new_two

-- `third` and `first` are demanded, so `second` leaves, though it was used last.
abbrev swapping : List ExpertRef
swapping = third ∷ first ∷ third ∷ []

admit-IsServed_example :
    (c : ExpertCache) × (plan : StepPlan) × (admit full swapping ≡ ok (c, plan))
    × IsServed full swapping c plan
unfolding program
admit-IsServed_example = admit-IsServed full swapping full-IsCache (omega arith)

abbrev before_fetch : Walk
before_fetch = record { cache = full; plan = record { hits = []; loads = [] }; fetched = [] }

fetch_total_example :
    (w : Walk) × (fetch (first ∷ third ∷ []) before_fetch third ≡ some w)
    × Fetched (first ∷ third ∷ []) before_fetch third w
    × IsValid w.cache
unfolding program
fetch_total_example =
    fetch_total (first ∷ third ∷ []) before_fetch third full-IsCache.valid (omega arith) refl refl

swaps :
    admit full swapping
    ≡ ok (
      record full {
        occupant = some first ∷ some third ∷ [];
        slot_of = (first, 0) ∷ (third, 1) ∷ [];
        last_used = (first, 5) ∷ (third, 6) ∷ [];
        clock = 6;
        stats = record { steps = 3; demands = 6; hits = 3; misses = 3; evictions = 1 };
      },
      record {
        hits = (first, 0) ∷ [];
        loads = record { expert = third; into_slot = 1; evicted = some second } ∷ [];
      },
    )
unfolding program
swaps = refl
