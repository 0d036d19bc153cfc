-- ===== src/Cache/Fetch.antt =====
-- A miss is always served: the slot that it takes, and that no `expect` of the source fails.
use mo_earc.Common.{
  ℕ, ◌≤◌, ◌<◌, ◌≡◌, refl, arith, true, lt→ltb, Option, none, some, Option-cases, inl, inr, List,
  length, get_elem?, lookup, contains,
}
use mo_earc.Cache.Types.{ExpertRef, expert_ref_eq}
use mo_earc.Cache.Pool.{Walk, place, place_checked, evict, fetch, first_empty_slot}
use mo_earc.Cache.Victim.{IsVictim, lru_victim-IsVictim, lru_victim_total}
use mo_earc.Cache.Occupancy.{vacancies, first_empty_from-some, first_empty_from-none}
use mo_earc.Cache.Invariant.{IsValid, CanPlace-vacant, CanPlace-evict, place-IsValid}

place_checked-eq :
    (w : Walk) (e : ExpertRef) (s : ℕ) (evicted : Option ExpertRef)
    → s < length w.cache.occupant
    → place_checked w e s evicted ≡ some (place w e s evicted)
unfolding place_checked
place_checked-eq w e s evicted room = rw (lt→ltb s (length w.cache.occupant) room) refl

-- What `fetch` has done: a vacant slot was filled, or the slot of a victim refilled. It has not
-- panicked.
pub data Fetched (pinned : List ExpertRef) (w : Walk) (e : ExpertRef) (w' : Walk) : Type 0 where
  filled :
      (s : ℕ)
      → get_elem? w.cache.occupant s ≡ some none
      → w' ≡ place w e s none
      → Fetched pinned w e w'
  refilled :
      (s : ℕ) (victim : ExpertRef)
      → IsVictim w.cache pinned victim
      → vacancies w.cache.occupant ≡ 0
      → lookup victim w.cache.slot_of ≡ some s
      → w' ≡ place (evict w victim) e s (some victim)
      → Fetched pinned w e w'

-- A pinned expert that is not resident is fetched without a panic, if no more are pinned than there
-- are slots: into a vacant slot, or with no slot vacant into that of a least recently used resident
-- that is not pinned.
pub fetch_total :
    (pinned : List ExpertRef) (w : Walk) (e : ExpertRef)
    → IsValid w.cache
    → length pinned ≤ w.cache.capacity
    → contains pinned e ≡ true
    → lookup e w.cache.slot_of ≡ none
    → (w' : Walk) × (fetch pinned w e ≡ some w') × Fetched pinned w e w' × IsValid w'.cache
unfolding fetch first_empty_slot
fetch_total pinned w e v few pin fresh = elim (Option-cases (first_empty_slot w.cache)) [
  | inr (s, found) ↦
      let (j, at, vacant) = first_empty_from-some 0 w.cache.occupant s found in
      let same : s ≡ j = omega (arith, at) in
      let here : get_elem? w.cache.occupant s ≡ some none = rw same vacant in
      let p = CanPlace-vacant w.cache e s v fresh here in
      (
        place w e s none,
        rw (found, fetch) (place_checked-eq w e s none p.room),
        Fetched.filled s here refl,
        place-IsValid w e s none p,
      )
  | inl full ↦
      let no_vacancy = first_empty_from-none 0 w.cache.occupant full in
      let (victim, chosen) =
        lru_victim_total w.cache pinned e v.distinct (omega (arith, v.balance, no_vacancy)) pin
          fresh in
      let is_victim = lru_victim-IsVictim w.cache pinned victim chosen in
      let p = CanPlace-evict w e victim is_victim.slot v fresh is_victim.resident in
      (
        place (evict w victim) e is_victim.slot (some victim),
        rw (full, fetch)
            (rw (chosen, is_victim.resident)
              (place_checked-eq (evict w victim) e is_victim.slot (some victim) p.room)),
        Fetched.refilled is_victim.slot victim is_victim no_vacancy is_victim.resident refl,
        place-IsValid (evict w victim) e is_victim.slot (some victim) p,
      )
]
