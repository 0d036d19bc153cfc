-- ===== src/Cache/Slots.antt =====
-- `slots_for`: the slots of a plan are those that hold the experts.
use mo_earc.Common.{
  ℕ, ◌≡◌, ◌⊎◌, inl, inr, refl, arith, true, false≢true, Bool-cases, Option, some, List, [], ◌∷◌,
  All, All-imp, none≢some, get_elem?, lookup, insert, contains, lookup-insert,
}
use mo_earc.Cache.Types.{ExpertRef, expert_eq, expert_eq_iff, expert_ref_eq, Load, StepPlan}
use mo_earc.Cache.Pool.{hit_listed, insert_hits, insert_loads, slots_in, slots_for}
use mo_earc.Cache.Step.{fetched_by, Named, Holds}

-- Every entry of the map is an entry of the cache's.
abbrev IsTrue : List (ExpertRef × ℕ) → List (ExpertRef × ℕ) → Type 0
IsTrue slot_of m = (q : ExpertRef) (s : ℕ) → lookup q m ≡ some s → lookup q slot_of ≡ some s

abbrev Has : List (ExpertRef × ℕ) → ExpertRef → Type 0
Has m q = (s : ℕ) × (lookup q m ≡ some s)

module _ (pinned : List ExpertRef) (slot_of : List (ExpertRef × ℕ)) where
  insert-IsTrue :
      (e : ExpertRef) (s : ℕ) (m : List (ExpertRef × ℕ))
      → lookup e slot_of ≡ some s
      → IsTrue slot_of m
      → IsTrue slot_of (insert e s m)
  insert-IsTrue e s m at true_m q t h =
      ground (arith, lookup-insert e q s m, expert_eq_iff e q, true_m q t)

  insert_hits-IsTrue :
      (hits : List (ExpertRef × ℕ)) (m : List (ExpertRef × ℕ))
      → All (λ h. Holds pinned slot_of h.0 h.1) hits
      → IsTrue slot_of m
      → IsTrue slot_of (insert_hits hits m)
  unfolding insert_hits
  insert_hits-IsTrue [] m all true_m = true_m
  insert_hits-IsTrue ((e, s) ∷ hits) m all true_m =
      insert_hits-IsTrue hits (insert e s m) all.1 (insert-IsTrue e s m all.0.1 true_m)

  insert_loads-IsTrue :
      (loads : List Load) (m : List (ExpertRef × ℕ))
      → All (λ l. Holds pinned slot_of l.expert l.into_slot) loads
      → IsTrue slot_of m
      → IsTrue slot_of (insert_loads loads m)
  unfolding insert_loads
  insert_loads-IsTrue [] m all true_m = true_m
  insert_loads-IsTrue (l ∷ loads) m all true_m =
      insert_loads-IsTrue loads (insert l.expert l.into_slot m) all.1
        (insert-IsTrue l.expert l.into_slot m all.0.1 true_m)

insert-Has :
    (e : ExpertRef) (s : ℕ) (m : List (ExpertRef × ℕ)) (q : ExpertRef)
    → (expert_eq e q ≡ true) ⊎ Has m q
    → Has (insert e s m) q
insert-Has e s m q (inl same) = (s, rw (lookup-insert e q s m, same) refl)
insert-Has e s m q (inr (t, h)) = elim (Bool-cases (expert_eq e q)) [
  | inl same ↦ (s, rw (lookup-insert e q s m, same) refl)
  | inr differ ↦ (t, rw (lookup-insert e q s m, differ) h)
]

insert_hits-Has :
    (hits : List (ExpertRef × ℕ)) (m : List (ExpertRef × ℕ)) (q : ExpertRef)
    → (hit_listed hits q ≡ true) ⊎ Has m q
    → Has (insert_hits hits m) q
unfolding insert_hits hit_listed
insert_hits-Has [] m q (inl h) = absurd (false≢true h)
insert_hits-Has [] m q (inr h) = h
insert_hits-Has ((e, s) ∷ hits) m q (inr h) =
    insert_hits-Has hits (insert e s m) q (inr (insert-Has e s m q (inr h)))
insert_hits-Has ((e, s) ∷ hits) m q (inl h) = elim (Bool-cases (expert_eq e q)) [
  | inl same ↦ insert_hits-Has hits (insert e s m) q (inr (insert-Has e s m q (inl same)))
  | inr differ ↦ insert_hits-Has hits (insert e s m) q (inl (rw differ at h))
]

insert_loads-Has :
    (loads : List Load) (m : List (ExpertRef × ℕ)) (q : ExpertRef)
    → (contains (fetched_by loads) q ≡ true) ⊎ Has m q
    → Has (insert_loads loads m) q
unfolding insert_loads contains
insert_loads-Has [] m q (inl h) = absurd (false≢true h)
insert_loads-Has [] m q (inr h) = h
insert_loads-Has (l ∷ loads) m q (inr h) =
    insert_loads-Has loads (insert l.expert l.into_slot m) q
      (inr (insert-Has l.expert l.into_slot m q (inr h)))
insert_loads-Has (l ∷ loads) m q (inl h) = elim (Bool-cases (expert_eq l.expert q)) [
  | inl same ↦
      insert_loads-Has loads (insert l.expert l.into_slot m) q
        (inr (insert-Has l.expert l.into_slot m q (inl same)))
  | inr differ ↦ insert_loads-Has loads (insert l.expert l.into_slot m) q (inl (rw differ at h))
]

-- Each requested expert stands in the slot of the same place.
abbrev pub Seated : List (Option ExpertRef) → List ExpertRef → List ℕ → Type 0
Seated occupant [] [] = Unit
Seated occupant [] (s ∷ slots) = ⊥
Seated occupant (e ∷ es) [] = ⊥
Seated occupant (e ∷ es) (s ∷ slots) =
    (get_elem? occupant s ≡ some (some e)) × Seated occupant es slots

slots_in-Seated :
    (occupant : List (Option ExpertRef)) (slot_of m : List (ExpertRef × ℕ)) (es : List ExpertRef)
    → ((e : ExpertRef) (s : ℕ) → lookup e slot_of ≡ some s → get_elem? occupant s ≡ some (some e))
    → IsTrue slot_of m
    → All (Has m) es
    → (slots : List ℕ) × (slots_in m es ≡ some slots) × Seated occupant es slots
unfolding slots_in
slots_in-Seated occupant slot_of m [] placed true_m has = ([], refl, tt)
slots_in-Seated occupant slot_of m (e ∷ es) placed true_m has =
    let (s, found) = has.0 in
    let (slots, rest, seated) = slots_in-Seated occupant slot_of m es placed true_m has.1 in
    (s ∷ slots, rw (found, slots_in) (rw rest refl), (placed e s (true_m e s found), seated))

-- A plan whose entries are the cache's, and which names every request, gathers from the right slots.
pub slots_for-Seated :
    (pinned : List ExpertRef) (occupant : List (Option ExpertRef)) (slot_of : List (ExpertRef × ℕ))
    (plan : StepPlan) (es : List ExpertRef)
    → ((e : ExpertRef) (s : ℕ) → lookup e slot_of ≡ some s → get_elem? occupant s ≡ some (some e))
    → All (λ h. Holds pinned slot_of h.0 h.1) plan.hits
    → All (λ l. Holds pinned slot_of l.expert l.into_slot) plan.loads
    → All (Named plan) es
    → (slots : List ℕ) × (slots_for plan es ≡ some slots) × Seated occupant es slots
unfolding slots_for lookup
slots_for-Seated pinned occupant slot_of plan es placed hits loads named =
    slots_in-Seated occupant slot_of _ es placed
      (insert_loads-IsTrue pinned slot_of plan.loads _ loads (
        insert_hits-IsTrue pinned slot_of plan.hits [] hits
          (λ q s h. absurd (none≢some {a = s} refl h))))
      (All-imp _ _ es (λ q n. covered q n) named)
  where
    covered :
        (q : ExpertRef) → Named plan q → Has (insert_loads plan.loads (insert_hits plan.hits [])) q
    covered q (inl listed) =
        insert_loads-Has plan.loads _ q (inr (insert_hits-Has plan.hits [] q (inl listed)))
    covered q (inr loaded) = insert_loads-Has plan.loads _ q (inl loaded)
