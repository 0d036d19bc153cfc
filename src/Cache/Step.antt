-- ===== src/Cache/Step.antt =====
-- One turn of `admit`'s loop: it never panics, it keeps the cache valid and every pinned resident in
-- its slot, and the plan names what the cache holds.
use mo_earc.Common.{
  ℕ, ◌+◌, ◌≤◌, ◌≡◌, ◌⊎◌, inl, inr, refl, arith, Bool, true, ◌||◌, Bool-cases, some, List, [], ◌∷◌,
  ◌++◌, map, ap, length, All, All-append_one, lookup, contains, beq_refl,
}
use mo_earc.Cache.Types.{ExpertRef, expert_eq, expert_ref_eq, Load, StepPlan}
use mo_earc.Cache.Pool.{Walk, tick, hit, hit_listed, hit_plan}
use mo_earc.Cache.Invariant.{IsValid}

abbrev pub fetched_by : List Load → List ExpertRef
fetched_by = map (λ l. l.expert)

-- The plan lists a slot for the expert.
abbrev pub Named : StepPlan → ExpertRef → Type 0
Named plan e = (hit_listed plan.hits e ≡ true) ⊎ (contains (fetched_by plan.loads) e ≡ true)

-- A pinned expert, in the slot that the cache has for it.
abbrev pub Holds : List ExpertRef → List (ExpertRef × ℕ) → ExpertRef → ℕ → Type 0
Holds pinned slot_of e s = (contains pinned e ≡ true) × (lookup e slot_of ≡ some s)

-- What the loop keeps.
pub record IsWalk (pinned : List ExpertRef) (w : Walk) : Type 0 where
  pub valid : IsValid w.cache
  pub few : length pinned ≤ w.cache.capacity
  pub hits_held : All (λ h. Holds pinned w.cache.slot_of h.0 h.1) w.plan.hits
  pub loads_held : All (λ l. Holds pinned w.cache.slot_of l.expert l.into_slot) w.plan.loads
  pub fetched_eq : w.fetched ≡ fetched_by w.plan.loads
  pub counted : w.cache.stats.hits + w.cache.stats.misses ≡ w.cache.stats.demands

-- What a turn adds.
pub record IsTurn (pinned : List ExpertRef) (w : Walk) (e : ExpertRef) (w' : Walk) : Type 0 where
  pub walk : IsWalk pinned w'
  pub kept :
      (q : ExpertRef) (s : ℕ) → Holds pinned w.cache.slot_of q s → Holds pinned w'.cache.slot_of q s
  pub here : Named w'.plan e
  pub named : (q : ExpertRef) → Named w.plan q → Named w'.plan q
  pub one_demand : w'.cache.stats.demands ≡ w.cache.stats.demands + 1
  pub misses_loaded :
      w'.cache.stats.misses + length w.plan.loads ≡ w.cache.stats.misses + length w'.plan.loads

-- Lists of hits and of loads that grow.
hit_listed-append :
    (hits : List (ExpertRef × ℕ)) (e : ExpertRef) (s : ℕ) (q : ExpertRef)
    → hit_listed (hits ++ ((e, s) ∷ [])) q ≡ (hit_listed hits q || expert_eq e q)
unfolding hit_listed
hit_listed-append [] e s q = ground arith
hit_listed-append ((h, t) ∷ hits) e s q = ground (arith, hit_listed-append hits e s q)

pub contains-append :
    (xs : List ExpertRef) (e q : ExpertRef)
    → contains (xs ++ (e ∷ [])) q ≡ (contains xs q || expert_eq e q)
unfolding contains
contains-append [] e q = ground arith
contains-append (x ∷ xs) e q = ground (arith, contains-append xs e q)

pub map-append_one :
    (loads : List Load) (l : Load)
    → fetched_by (loads ++ (l ∷ [])) ≡ fetched_by loads ++ (l.expert ∷ [])
map-append_one [] l = refl
map-append_one (x ∷ loads) l = ap (◌∷◌ x.expert) (map-append_one loads l)

-- What a hit does to the plan.
record IsHitPlan (pinned : List ExpertRef) (w : Walk) (e : ExpertRef) (plan : StepPlan)
    : Type 0 where
  loads_same : plan.loads ≡ w.plan.loads
  held : All (λ h. Holds pinned w.cache.slot_of h.0 h.1) plan.hits
  here : Named plan e
  named : (q : ExpertRef) → Named w.plan q → Named plan q

IsHitPlan-same :
    (pinned : List ExpertRef) (w : Walk) (e : ExpertRef)
    → IsWalk pinned w
    → Named w.plan e
    → IsHitPlan pinned w e w.plan
IsHitPlan-same pinned w e k n = record {
  loads_same = refl;
  held = k.hits_held;
  here = n;
  named = λ q m. m;
}

hit_plan-IsHitPlan :
    (pinned : List ExpertRef) (w : Walk) (e : ExpertRef) (slot : ℕ)
    → IsWalk pinned w
    → Holds pinned w.cache.slot_of e slot
    → IsHitPlan pinned w e (hit_plan w e slot)
unfolding hit_plan
hit_plan-IsHitPlan pinned w e slot k h = elim (Bool-cases (contains w.fetched e)) [
  | inl again ↦ rw (again, hit_plan) (IsHitPlan-same pinned w e k (inr (rw (← k.fetched_eq) again)))
  | inr first ↦ elim (Bool-cases (hit_listed w.plan.hits e)) [
    | inl listed ↦ rw (first, listed, hit_plan) (IsHitPlan-same pinned w e k (inl listed))
    | inr new ↦
        rw (first, new, hit_plan)
          (record {
            loads_same = refl;
            held = All-append_one _ w.plan.hits (e, slot) k.hits_held h;
            here = inl (rw (hit_listed-append w.plan.hits e slot e) (or_true _ _ (beq_refl e)));
            named = λ q m. elim m [
              | inl listed ↦ inl (rw (hit_listed-append w.plan.hits e slot q, listed) refl)
              | inr loaded ↦ inr loaded
            ];
          })
  ]
]
  where
    or_true : (a b : Bool) → b ≡ true → (a || b) ≡ true
    or_true a b h = ground arith

-- The branch of a resident expert.
module _ (pinned : List ExpertRef) (w : Walk) (e : ExpertRef) (slot : ℕ) where
  abbrev pub ticked : Walk
  ticked = record w { cache = tick w.cache }

  hit-IsValid : IsValid w.cache → IsValid (hit ticked e slot).cache
  unfolding hit tick
  hit-IsValid v = record {
    size = v.size;
    balance = v.balance;
    distinct = v.distinct;
    placed = v.placed;
    listed = v.listed;
  }

  ticked-IsHitPlan :
      IsWalk pinned w
      → Holds pinned w.cache.slot_of e slot
      → IsHitPlan pinned w e (hit_plan ticked e slot)
  unfolding tick hit_plan
  ticked-IsHitPlan k h = hit_plan-IsHitPlan pinned w e slot k h

  pub hit-IsTurn :
      IsWalk pinned w → Holds pinned w.cache.slot_of e slot → IsTurn pinned w e (hit ticked e slot)
  unfolding hit tick
  hit-IsTurn k held =
      let p = ticked-IsHitPlan k held in
      record {
        walk = record {
          valid = hit-IsValid k.valid;
          few = k.few;
          hits_held = p.held;
          loads_held = rw p.loads_same k.loads_held;
          fetched_eq = rw p.loads_same k.fetched_eq;
          counted = omega (arith, k.counted);
        };
        kept = λ q s h. h;
        here = p.here;
        named = p.named;
        one_demand = refl;
        misses_loaded = rw p.loads_same refl;
      }
