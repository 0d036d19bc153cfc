-- ===== src/Cache/Admit.antt =====
-- The loop of `admit`, and `admit` itself.
use mo_earc.Common.{
  ℕ, ◌+◌, ◌≤◌, ◌<◌, ◌≡◌, refl, arith, true, some, List, [], ◌∷◌, length, All, All-imp, le→ltb,
  contains, lt→ltb,
}
use mo_earc.Cache.Types.{
  ExpertRef, expert_ref_eq, ExpertCache, StepPlan, ok, err, step_exceeds_capacity,
}
use mo_earc.Cache.Pool.{Walk, walk, start, admit, distinct_of, slots_for}
use mo_earc.Cache.Invariant.{IsValid}
use mo_earc.Cache.Step.{Named, IsWalk}
use mo_earc.Cache.Turn.{demand-IsTurn}
use mo_earc.Cache.Distinct.{contains-distinct_of, All-contains}
use mo_earc.Cache.Slots.{Seated, slots_for-Seated}

-- What the loop over the demands has done.
pub record IsWalked (pinned : List ExpertRef) (w : Walk) (needed : List ExpertRef) (w' : Walk)
    : Type 0 where
  pub walked : IsWalk pinned w'
  pub named : All (Named w'.plan) needed
  pub carried : (q : ExpertRef) → Named w.plan q → Named w'.plan q
  pub demands : w'.cache.stats.demands ≡ w.cache.stats.demands + length needed
  pub misses :
      w'.cache.stats.misses + length w.plan.loads ≡ w.cache.stats.misses + length w'.plan.loads

pub walk_total :
    (pinned : List ExpertRef) (w : Walk) (needed : List ExpertRef)
    → IsWalk pinned w
    → All (λ e. contains pinned e ≡ true) needed
    → (w' : Walk) × (walk pinned w needed ≡ some w') × IsWalked pinned w needed w'
unfolding walk
walk_total pinned w [] k pins = (
  w,
  refl,
  record { walked = k; named = tt; carried = λ q m. m; demands = omega arith; misses = refl },
)
walk_total pinned w (e ∷ needed) k pins =
    let (w₁, turned, t) = demand-IsTurn pinned w e k pins.0 in
    let (w', done, r) = walk_total pinned w₁ needed t.walk pins.1 in
    (
      w',
      rw (turned, walk) done,
      record {
        walked = r.walked;
        named = (r.carried e t.here, r.named);
        carried = λ q m. r.carried q (t.named q m);
        demands = omega (arith, r.demands, t.one_demand);
        misses = omega (arith, r.misses, t.misses_loaded);
      },
    )

-- A cache between two steps.
pub record IsCache (c : ExpertCache) : Type 0 where
  pub valid : IsValid c
  pub counted : c.stats.hits + c.stats.misses ≡ c.stats.demands

start-IsWalk :
    (c : ExpertCache) (pinned : List ExpertRef)
    → IsCache c
    → length pinned ≤ c.capacity
    → IsWalk pinned (start c)
unfolding start
start-IsWalk c pinned v few = record {
  valid = record {
    size = v.valid.size;
    balance = v.valid.balance;
    distinct = v.valid.distinct;
    placed = v.valid.placed;
    listed = v.valid.listed;
  };
  few = few;
  hits_held = tt;
  loads_held = tt;
  fetched_eq = refl;
  counted = v.counted;
}

-- Every demand is among the pinned experts.
pinned_by_distinct_of :
    (needed : List ExpertRef) → All (λ e. contains (distinct_of needed) e ≡ true) needed
pinned_by_distinct_of needed =
    All-imp _ _ needed (λ q h. rw (contains-distinct_of needed q) h) (All-contains needed)

-- What a step that is admitted leaves: the cache in order, every demanded expert in the slot that
-- the plan gives for it, one counted demand for each, and one load for each miss.
pub record IsServed (c : ExpertCache) (needed : List ExpertRef) (c' : ExpertCache) (plan : StepPlan)
    : Type 0 where
  pub cache : IsCache c'
  pub slots : List ℕ
  pub gathered : slots_for plan needed ≡ some slots
  pub seated : Seated c'.occupant needed slots
  pub demands : c'.stats.demands ≡ c.stats.demands + length needed
  pub misses : c'.stats.misses ≡ c.stats.misses + length plan.loads

IsServed-start :
    (c : ExpertCache) (needed : List ExpertRef) (w : Walk)
    → IsWalked (distinct_of needed) (start c) needed w
    → IsServed c needed w.cache w.plan
unfolding start
IsServed-start c needed w r =
    let k = r.walked in
    let (slots, gathered, seated) =
      slots_for-Seated (distinct_of needed) w.cache.occupant w.cache.slot_of w.plan needed
        k.valid.placed k.hits_held k.loads_held r.named in
    record {
      cache = record { valid = k.valid; counted = k.counted };
      slots = slots;
      gathered = gathered;
      seated = seated;
      demands = r.demands;
      misses = omega (arith, r.misses);
    }

-- A step that names no more distinct experts than the cache has slots is admitted, without a
-- panic: afterwards the cache is in order, and `slots_for` gives for each demanded expert, in the
-- order of the demands, a slot that holds it, so that no expert of the step was evicted by it.
pub admit-IsServed :
    (c : ExpertCache) (needed : List ExpertRef)
    → IsCache c
    → length (distinct_of needed) ≤ c.capacity
    → (c' : ExpertCache) × (plan : StepPlan) × (admit c needed ≡ ok (c', plan))
      × IsServed c needed c' plan
unfolding admit
admit-IsServed c needed v few =
    let pinned = distinct_of needed in
    let (w, walked, r) =
      walk_total pinned (start c) needed (start-IsWalk c pinned v few)
        (pinned_by_distinct_of needed) in
    (
      w.cache,
      w.plan,
      rw (le→ltb (length pinned) c.capacity few) (rw walked refl),
      IsServed-start c needed w r,
    )

-- A step that names more is refused, and the error says how many.
pub admit_refused :
    (c : ExpertCache) (needed : List ExpertRef)
    → c.capacity < length (distinct_of needed)
    → admit c needed ≡ err (step_exceeds_capacity (length (distinct_of needed)) c.capacity)
unfolding admit
admit_refused c needed many = rw (lt→ltb c.capacity (length (distinct_of needed)) many) refl
