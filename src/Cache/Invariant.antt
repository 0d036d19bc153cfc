-- ===== src/Cache/Invariant.antt =====
-- The invariant of the expert cache: its two maps are inverse to one another, every slot is
-- accounted for, and its counters agree.
use mo_earc.Common.{
  ℕ, zero, suc, ◌+◌, ◌<◌, ◌≡◌, ◌≢◌, inl, inr, refl, arith, Bool-cases, ◌==◌, ◌∙◌, sym, ℕ_discrete,
  Option, none, some, none≢some, List, [], length, get_elem?, set, replicate, lookup, insert,
  Distinct, length-set, length-replicate, get_elem?-set_self, get_elem?-set_ne,
  lt-length_of_get_elem?, lookup-insert, lookup-remove, length-insert_new, length-remove,
  insert-Distinct, remove-Distinct,
}
use mo_earc.Cache.Types.{
  ExpertRef, expert_eq, expert_eq_iff, expert_ref_eq, ExpertCache, no_stats, ok,
}
use mo_earc.Cache.Pool.{Walk, new, place, evict}
use mo_earc.Cache.Occupancy.{
  vacancies, vacancies-replicate, vacancies-set_vacant, vacancies-set_taken,
}

-- `first_empty_from` at 0.
pub record IsValid (c : ExpertCache) : Type 0 where
  pub size : length c.occupant ≡ c.capacity
  pub balance : length c.slot_of + vacancies c.occupant ≡ c.capacity
  pub distinct : Distinct c.slot_of
  pub placed :
      (e : ExpertRef) (s : ℕ) → lookup e c.slot_of ≡ some s → get_elem? c.occupant s ≡ some (some e)
  pub listed :
      (e : ExpertRef) (s : ℕ) → get_elem? c.occupant s ≡ some (some e) → lookup e c.slot_of ≡ some s

abbrev empty : ℕ → ExpertCache
empty capacity = record {
  capacity = capacity;
  occupant = replicate capacity none;
  slot_of = [];
  last_used = [];
  clock = 0;
  stats = no_stats;
}

empty-IsValid : (capacity : ℕ) → IsValid (empty capacity)
unfolding lookup
empty-IsValid capacity = record {
  size = length-replicate capacity none;
  balance = omega (arith, vacancies-replicate capacity);
  distinct = tt;
  placed = λ e s h. absurd (none≢some {a = s} refl h);
  listed = λ e s h. absurd (vacant capacity s h);
}
  where
    vacant : (n s : ℕ) {e : ExpertRef} → get_elem? (replicate n none) s ≡ some (some e) → ⊥
    vacant zero s h = cc
    vacant (suc n) zero h = cc
    vacant (suc n) (suc s) h = vacant n s h

-- A new cache is valid and empty.
pub new-IsValid :
    (capacity : ℕ) {c : ExpertCache} → new capacity ≡ ok c → IsValid c × (c.slot_of ≡ [])
unfolding new
new-IsValid capacity {c} h = elim (Bool-cases (capacity == 0)) [
  | inl zero_slots ↦ absurd (ground arith)
  | inr slots ↦
      let made : empty capacity ≡ c = ground arith in rw (← made) (empty-IsValid capacity, refl)
]

-- The two maps with an expert placed in a slot.
module _ (occupant : List (Option ExpertRef)) (slot_of : List (ExpertRef × ℕ)) (e : ExpertRef)
    (s : ℕ) where
  module _
      (placed : (x : ExpertRef) (i : ℕ)
        → lookup x slot_of ≡ some i
        → get_elem? occupant i ≡ some (some x))
      (listed : (x : ExpertRef) (i : ℕ)
        → i ≢ s
        → get_elem? occupant i ≡ some (some x)
        → lookup x slot_of ≡ some i)
      (fresh : lookup e slot_of ≡ none) (free : (x : ExpertRef) → lookup x slot_of ≢ some s)
      (room : s < length occupant) where
    place-placed :
        (x : ExpertRef) (i : ℕ)
        → lookup x (insert e s slot_of) ≡ some i
        → get_elem? (set occupant s (some e)) i ≡ some (some x)
    place-placed x i h = elim (Bool-cases (expert_eq e x)) [
      | inl same ↦ ground (
        arith,
        lookup-insert e x s slot_of,
        expert_eq_iff e x,
        get_elem?-set_self occupant s (some e),
      )
      | inr differ ↦
          let before : lookup x slot_of ≡ some i = ground (arith, lookup-insert e x s slot_of) in
          let ne : s ≢ i = λ at. free x (rw at before) in
          get_elem?-set_ne occupant s i (some e) ne ∙ placed x i before
    ]

    place-listed :
        (x : ExpertRef) (i : ℕ)
        → get_elem? (set occupant s (some e)) i ≡ some (some x)
        → lookup x (insert e s slot_of) ≡ some i
    place-listed x i h = elim (ℕ_discrete s i) [
      | yes at ↦ ground (
        arith,
        lookup-insert e x s slot_of,
        expert_eq_iff e x,
        get_elem?-set_self occupant s (some e),
      )
      | no ne ↦
          let before : get_elem? occupant i ≡ some (some x) =
            sym (get_elem?-set_ne occupant s i (some e) ne) ∙ h in
          let known = listed x i (λ same. ne (sym same)) before in
          ground (arith, lookup-insert e x s slot_of, expert_eq_iff e x)
    ]

-- A slot that is filled or refilled keeps the cache valid.
pub record CanPlace (c : ExpertCache) (e : ExpertRef) (s : ℕ) : Type 0 where
  pub size : length c.occupant ≡ c.capacity
  pub balance : length c.slot_of + vacancies (set c.occupant s (some e)) + 1 ≡ c.capacity
  pub distinct : Distinct c.slot_of
  pub placed :
      (x : ExpertRef) (i : ℕ) → lookup x c.slot_of ≡ some i → get_elem? c.occupant i ≡ some (some x)
  pub listed :
      (x : ExpertRef) (i : ℕ)
      → i ≢ s
      → get_elem? c.occupant i ≡ some (some x)
      → lookup x c.slot_of ≡ some i
  pub fresh : lookup e c.slot_of ≡ none
  pub free : (x : ExpertRef) → lookup x c.slot_of ≢ some s
  pub room : s < length c.occupant

pub place-IsValid :
    (w : Walk) (e : ExpertRef) (s : ℕ) (evicted : Option ExpertRef)
    → CanPlace w.cache e s
    → IsValid (place w e s evicted).cache
unfolding place
place-IsValid w e s evicted p =
    let c = w.cache in
    record {
      size = length-set c.occupant s (some e) ∙ p.size;
      balance = omega (arith, p.balance, length-insert_new e s c.slot_of p.fresh);
      distinct = insert-Distinct e s c.slot_of p.distinct;
      placed = place-placed c.occupant c.slot_of e s p.placed p.listed p.fresh p.free p.room;
      listed = place-listed c.occupant c.slot_of e s p.placed p.listed p.fresh p.free p.room;
    }

-- A vacant slot can be filled.
pub CanPlace-vacant :
    (c : ExpertCache) (e : ExpertRef) (s : ℕ)
    → IsValid c
    → lookup e c.slot_of ≡ none
    → get_elem? c.occupant s ≡ some none
    → CanPlace c e s
CanPlace-vacant c e s v fresh vacant = record {
  size = v.size;
  balance = omega (arith, v.balance, vacancies-set_vacant c.occupant s e vacant);
  distinct = v.distinct;
  placed = v.placed;
  listed = λ x i ne. v.listed x i;
  fresh = fresh;
  free = λ x at. clash (v.placed x s at);
  room = lt-length_of_get_elem? c.occupant s vacant;
}
  where
    clash : {x : ExpertRef} → get_elem? c.occupant s ≡ some (some x) → ⊥
    clash taken = cc

-- The slot of an evicted expert can be refilled.
pub CanPlace-evict :
    (w : Walk) (e victim : ExpertRef) (s : ℕ)
    → IsValid w.cache
    → lookup e w.cache.slot_of ≡ none
    → lookup victim w.cache.slot_of ≡ some s
    → CanPlace (evict w victim).cache e s
unfolding evict
CanPlace-evict w e victim s v fresh found =
    let c = w.cache in
    let taken = v.placed victim s found in
    record {
      size = v.size;
      balance = omega (
        arith,
        v.balance,
        vacancies-set_taken c.occupant s victim e taken,
        length-remove victim c.slot_of s v.distinct found,
      );
      distinct = remove-Distinct victim c.slot_of v.distinct;
      placed = λ x i h. v.placed x i (ground (arith, lookup-remove victim x c.slot_of));
      listed = λ x i ne h.
          let known = v.listed x i h in
          ground (arith, lookup-remove victim x c.slot_of, expert_eq_iff victim x);
      fresh = ground (arith, lookup-remove victim e c.slot_of);
      free = λ x h.
          ground
            (arith, lookup-remove victim x c.slot_of, expert_eq_iff victim x, v.placed x s, taken);
      room = lt-length_of_get_elem? c.occupant s taken;
    }
