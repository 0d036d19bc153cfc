-- ===== src/Cache/Victim.antt =====
-- Which expert `lru_victim` chooses: a resident that is not pinned, and no such resident was used
-- earlier.
use mo_earc.Common.{
  ℕ, ◌≤◌, ◌≡◌, inl, inr, refl, arith, Bool, true, false, ◌&&◌, not, ltb, ltb→lt, ltb→le, Bool-cases,
  false≢true, none, some, Option-cases, List, [], ◌∷◌, length, lookup, keys, contains, Distinct,
  beq_refl, contains-keys, contains-keys_of_lookup, length-le_of_contains,
}
use mo_earc.Cache.Types.{ExpertRef, expert_eq, expert_eq_iff, expert_ref_eq, ExpertCache}
use mo_earc.Cache.Pool.{last_use, unpinned, least_from, min_by_key, lru_victim}

least_from-contains :
    (key : ExpertRef → ℕ) (best : ExpertRef) (es : List ExpertRef)
    → contains (best ∷ es) (least_from key best es) ≡ true
unfolding least_from contains
least_from-contains key best [] = rw (beq_refl best) refl
least_from-contains key best (e ∷ es) = elim (Bool-cases (ltb (key e) (key best))) [
  | inl less ↦ rw (less, least_from) (ground (arith, least_from-contains key e es))
  | inr more ↦ rw (more, least_from) (ground (arith, least_from-contains key best es))
]

least_from-le_best :
    (key : ExpertRef → ℕ) (best : ExpertRef) (es : List ExpertRef)
    → key (least_from key best es) ≤ key best
unfolding least_from
least_from-le_best key best [] = omega arith
least_from-le_best key best (e ∷ es) = elim (Bool-cases (ltb (key e) (key best))) [
  | inl less ↦ rw (less, least_from) (omega (arith, least_from-le_best key e es, ltb→lt _ _ less))
  | inr more ↦ rw (more, least_from) (least_from-le_best key best es)
]

least_from-le :
    (key : ExpertRef → ℕ) (best : ExpertRef) (es : List ExpertRef) (x : ExpertRef)
    → contains es x ≡ true
    → key (least_from key best es) ≤ key x
unfolding least_from contains
least_from-le key best [] x h = absurd (false≢true h)
least_from-le key best (e ∷ es) x h = elim (Bool-cases (ltb (key e) (key best))) [
  | inl less ↦ rw (less, least_from) (at_head e (omega arith) (λ m. least_from-le key e es x m))
  | inr more ↦
      rw (more, least_from) (at_head best (ltb→le _ _ more) (λ m. least_from-le key best es x m))
]
  where
    at_head :
        (b : ExpertRef)
        → key b ≤ key e
        → (contains es x ≡ true → key (least_from key b es) ≤ key x)
        → key (least_from key b es) ≤ key x
    at_head b le later = elim (Bool-cases (expert_eq e x)) [
      | inl same ↦ rw (← (expert_eq_iff e x).0 same) (omega (arith, least_from-le_best key b es))
      | inr differ ↦ later (rw differ at h)
    ]

pub contains-unpinned :
    (pinned es : List ExpertRef) (x : ExpertRef)
    → contains (unpinned pinned es) x ≡ (contains es x && not (contains pinned x))
unfolding unpinned contains
contains-unpinned pinned [] x = refl
contains-unpinned pinned (e ∷ es) x =
    ground (arith, contains-unpinned pinned es x, expert_eq_iff e x)

-- What is known of a victim.
pub record IsVictim (c : ExpertCache) (pinned : List ExpertRef) (v : ExpertRef) : Type 0 where
  pub not_pinned : contains pinned v ≡ false
  pub slot : ℕ
  pub resident : lookup v c.slot_of ≡ some slot
  pub least :
      (x : ExpertRef) {s : ℕ}
      → lookup x c.slot_of ≡ some s
      → contains pinned x ≡ false
      → last_use c.last_used v ≤ last_use c.last_used x

and_parts : (a b : Bool) → (a && not b) ≡ true → (a ≡ true) × (b ≡ false)
and_parts a b h = ground arith

min_by_key-contains :
    (key : ExpertRef → ℕ) (es : List ExpertRef) (v : ExpertRef)
    → min_by_key key es ≡ some v
    → contains es v ≡ true
unfolding min_by_key
min_by_key-contains key [] v h = cc
min_by_key-contains key (e ∷ es) v h =
    let chosen : least_from key e es ≡ v = cc in rw (← chosen) (least_from-contains key e es)

min_by_key-le :
    (key : ExpertRef → ℕ) (es : List ExpertRef) (v x : ExpertRef)
    → min_by_key key es ≡ some v
    → contains es x ≡ true
    → key v ≤ key x
unfolding min_by_key contains
min_by_key-le key [] v x h m = cc
min_by_key-le key (e ∷ es) v x h m =
    let chosen : least_from key e es ≡ v = cc in
    rw (← chosen) (elim (Bool-cases (expert_eq e x)) [
      | inl same ↦ rw (← (expert_eq_iff e x).0 same) (least_from-le_best key e es)
      | inr differ ↦ least_from-le key e es x (rw differ at m)
    ])

min_by_key-ne-none :
    (key : ExpertRef → ℕ) (es : List ExpertRef) (x : ExpertRef)
    → min_by_key key es ≡ none
    → contains es x ≡ true
    → ⊥
unfolding min_by_key contains
min_by_key-ne-none key [] x h m = false≢true m
min_by_key-ne-none key (e ∷ es) x h m = cc

-- A victim that is chosen is one.
pub lru_victim-IsVictim :
    (c : ExpertCache) (pinned : List ExpertRef) (v : ExpertRef)
    → lru_victim c pinned ≡ some v
    → IsVictim c pinned v
unfolding lru_victim
lru_victim-IsVictim c pinned v h =
    let m = min_by_key-contains (last_use c.last_used) _ v h in
    let (known, free) =
      and_parts (contains (keys c.slot_of) v) (contains pinned v)
        (rw (contains-unpinned pinned (keys c.slot_of) v) at m) in
    let (s, found) = contains-keys c.slot_of v known in
    record {
      not_pinned = free;
      slot = s;
      resident = found;
      least = λ x {s} at_slot unpinned_x. min_by_key-le (last_use c.last_used) _ v x h (
          rw
            (
              contains-unpinned pinned (keys c.slot_of) x,
              contains-keys_of_lookup c.slot_of x s at_slot,
              unpinned_x,
            )
            refl);
    }

-- Where nothing is chosen every resident is pinned.
all_pinned :
    (c : ExpertCache) (pinned : List ExpertRef) (x : ExpertRef) (s : ℕ)
    → lru_victim c pinned ≡ none
    → lookup x c.slot_of ≡ some s
    → contains pinned x ≡ true
unfolding lru_victim
all_pinned c pinned x s h found = elim (Bool-cases (contains pinned x)) [
  | inl pin ↦ pin
  | inr free ↦ absurd (
      min_by_key-ne-none (last_use c.last_used) _ x h (
        rw
          (
            contains-unpinned pinned (keys c.slot_of) x,
            contains-keys_of_lookup c.slot_of x s found,
            free,
          )
          refl))
]

-- A pinned expert that is not resident leaves room for a victim, if the residents are as many as
-- the pinned experts at least.
pub lru_victim_total :
    (c : ExpertCache) (pinned : List ExpertRef) (e : ExpertRef)
    → Distinct c.slot_of
    → length pinned ≤ length c.slot_of
    → contains pinned e ≡ true
    → lookup e c.slot_of ≡ none
    → (v : ExpertRef) × (lru_victim c pinned ≡ some v)
unfolding lookup
lru_victim_total c pinned e d many pin absent = elim (Option-cases (lru_victim c pinned)) [
  | inr found ↦ found
  | inl nothing ↦
      absurd (
        omega (arith, length-le_of_contains ((e, 0) ∷ c.slot_of) pinned (absent, d) (each nothing)))
]
  where
    each :
        lru_victim c pinned ≡ none
        → (x : ExpertRef) (s : ℕ) → lookup x ((e, 0) ∷ c.slot_of) ≡ some s
        → contains pinned x ≡ true
    each nothing x s found = elim (Bool-cases (expert_eq e x)) [
      | inl same ↦ rw (← (expert_eq_iff e x).0 same) pin
      | inr differ ↦ all_pinned c pinned x s nothing (rw differ at found)
    ]
