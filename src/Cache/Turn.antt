-- ===== src/Cache/Turn.antt =====
-- The turn of a demand that is not resident, and every turn together.
use mo_earc.Common.{
  ℕ, ◌+◌, ◌≡◌, inl, inr, refl, ap, sym, ◌∙◌, arith, Bool, true, false, ◌||◌, Option, none, some,
  Option-cases, List, [], ◌∷◌, ◌++◌, length-append, All-append_one, All-imp, lookup, contains,
  lookup-insert, lookup-remove, beq_refl,
}
use mo_earc.Cache.Types.{ExpertRef, expert_eq_iff, expert_ref_eq, Load}
use mo_earc.Cache.Pool.{Walk, tick, hit, miss, place, evict, demand}
use mo_earc.Cache.Invariant.{IsValid}
use mo_earc.Cache.Fetch.{Fetched, fetch_total}
use mo_earc.Cache.Step.{
  fetched_by, Holds, IsWalk, IsTurn, contains-append, map-append_one, ticked, hit-IsTurn,
}

-- The walk just before an expert is placed: a miss is counted, and no pinned expert has moved.
record IsBefore (pinned : List ExpertRef) (w : Walk) (e : ExpertRef) (b : Walk) : Type 0 where
  plan_same : b.plan ≡ w.plan
  fetched_next : b.fetched ≡ w.fetched ++ (e ∷ [])
  capacity_same : b.cache.capacity ≡ w.cache.capacity
  demands : b.cache.stats.demands ≡ w.cache.stats.demands + 1
  misses : b.cache.stats.misses ≡ w.cache.stats.misses + 1
  hits : b.cache.stats.hits ≡ w.cache.stats.hits
  kept :
      (q : ExpertRef) (s : ℕ) → Holds pinned w.cache.slot_of q s → lookup q b.cache.slot_of ≡ some s
  absent : lookup e b.cache.slot_of ≡ none

module _ (pinned : List ExpertRef) (w : Walk) (e : ExpertRef) (b : Walk) (s : ℕ)
    (evicted : Option ExpertRef) where
  abbrev load : Load
  load = record { expert = e; into_slot = s; evicted = evicted }

  place-kept :
      IsBefore pinned w e b
      → (q : ExpertRef) (t : ℕ) → Holds pinned w.cache.slot_of q t
      → Holds pinned (place b e s evicted).cache.slot_of q t
  unfolding place
  place-kept f q t h =
      let before = f.kept q t h in
      let gone = f.absent in
      (h.0, ground (arith, lookup-insert e q s b.cache.slot_of, expert_eq_iff e q, before, gone))

  place-IsTurn :
      IsWalk pinned w
      → contains pinned e ≡ true
      → IsBefore pinned w e b
      → IsValid (place b e s evicted).cache
      → IsTurn pinned w e (place b e s evicted)
  unfolding place
  place-IsTurn k pin f v = record {
    walk = record {
      valid = v;
      few = rw f.capacity_same k.few;
      hits_held = rw f.plan_same (All-imp _ _ w.plan.hits (λ h. place-kept f h.0 h.1) k.hits_held);
      loads_held = rw f.plan_same (
          All-append_one _ w.plan.loads load
            (All-imp _ _ w.plan.loads (λ l. place-kept f l.expert l.into_slot) k.loads_held)
            (pin, rw (lookup-insert e e s b.cache.slot_of, beq_refl e) refl));
      fetched_eq = rw f.plan_same (
          f.fetched_next
          ∙ ap (λ xs. xs ++ (e ∷ [])) k.fetched_eq
          ∙ sym (map-append_one w.plan.loads load));
      counted = omega (arith, f.demands, f.misses, f.hits, k.counted);
    };
    kept = place-kept f;
    here = inr (
        rw
          (
            f.plan_same,
            map-append_one w.plan.loads load,
            contains-append (fetched_by w.plan.loads) e e,
          )
          (or_true _ _ (beq_refl e)));
    named = λ q m. rw f.plan_same (elim m [
      | inl listed ↦ inl listed
      | inr loaded ↦ inr (
          rw
            (
              map-append_one w.plan.loads load,
              contains-append (fetched_by w.plan.loads) e q,
              loaded,
            )
            refl)
    ]);
    one_demand = f.demands;
    misses_loaded =
        rw f.plan_same (omega (arith, f.misses, length-append w.plan.loads (load ∷ [])));
  }
    where
      or_true : (a b : Bool) → b ≡ true → (a || b) ≡ true
      or_true a b h = ground arith

module _ (pinned : List ExpertRef) (w : Walk) (e : ExpertRef)
    (fresh : lookup e w.cache.slot_of ≡ none) where
  abbrev missed : Walk
  missed = miss (ticked pinned w e 0) e

  missed-IsBefore : IsBefore pinned w e missed
  unfolding miss tick
  missed-IsBefore = record {
    plan_same = refl;
    fetched_next = refl;
    capacity_same = refl;
    demands = refl;
    misses = refl;
    hits = refl;
    kept = λ q s h. h.1;
    absent = fresh;
  }

  missed-IsValid : IsValid w.cache → IsValid missed.cache
  unfolding miss tick
  missed-IsValid v = record {
    size = v.size;
    balance = v.balance;
    distinct = v.distinct;
    placed = v.placed;
    listed = v.listed;
  }

  evict-IsBefore :
      (victim : ExpertRef)
      → contains pinned victim ≡ false
      → IsBefore pinned w e (evict missed victim)
  unfolding miss tick evict
  evict-IsBefore victim free = record {
    plan_same = refl;
    fetched_next = refl;
    capacity_same = refl;
    demands = refl;
    misses = refl;
    hits = refl;
    kept = λ q s h.
        ground
          (arith, lookup-remove victim q w.cache.slot_of, expert_eq_iff victim q, free, h.0, h.1);
    absent = ground (arith, lookup-remove victim e w.cache.slot_of);
  }

  Fetched-IsTurn :
      {w' : Walk}
      → IsWalk pinned w
      → contains pinned e ≡ true
      → Fetched pinned missed e w'
      → IsValid w'.cache
      → IsTurn pinned w e w'
  Fetched-IsTurn k pin (Fetched.filled s vacant same) v =
      rw same (place-IsTurn pinned w e missed s none k pin missed-IsBefore (rw (← same) v))
  Fetched-IsTurn k pin (Fetched.refilled s victim is_victim full at same) v = rw same (
      place-IsTurn pinned w e (evict missed victim) s (some victim) k pin
        (evict-IsBefore victim is_victim.not_pinned) (rw (← same) v))

-- A turn never panics.
pub demand-IsTurn :
    (pinned : List ExpertRef) (w : Walk) (e : ExpertRef)
    → IsWalk pinned w
    → contains pinned e ≡ true
    → (w' : Walk) × (demand pinned w e ≡ some w') × IsTurn pinned w e w'
unfolding demand
demand-IsTurn pinned w e k pin = elim (Option-cases (lookup e w.cache.slot_of)) [
  | inr (slot, found) ↦ (
    hit (ticked pinned w e slot) e slot,
    rw (found, demand) refl,
    hit-IsTurn pinned w e slot k (pin, found),
  )
  | inl fresh ↦
      let m = missed pinned w e fresh in
      let before = missed-IsBefore pinned w e fresh in
      let (w', done, fetched, v) =
        fetch_total pinned m e (missed-IsValid pinned w e fresh k.valid)
          (rw before.capacity_same k.few) pin before.absent in
      (w', rw (fresh, demand) done, Fetched-IsTurn pinned w e fresh k pin fetched v)
]
