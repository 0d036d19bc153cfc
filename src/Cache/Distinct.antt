-- ===== src/Cache/Distinct.antt =====
-- `sort_unstable` and `dedup` keep every expert.
use mo_earc.Common.{
  ◌≡◌, ◌∙◌, refl, arith, Bool, true, ◌||◌, List, [], ◌∷◌, All, All-imp, contains, beq_refl,
  Bool-cases, inl, inr,
}
use mo_earc.Cache.Types.{ExpertRef, expert_eq, expert_eq_iff, expert_ref_eq}
use mo_earc.Cache.Pool.{insert_sorted, sort_unstable, dedup_after, dedup, distinct_of}

pub contains-insert_sorted :
    (e : ExpertRef) (xs : List ExpertRef) (q : ExpertRef)
    → contains (insert_sorted e xs) q ≡ (expert_eq e q || contains xs q)
unfolding insert_sorted contains
contains-insert_sorted e [] q = refl
contains-insert_sorted e (x ∷ xs) q = ground (arith, contains-insert_sorted e xs q)

contains-sort_unstable :
    (xs : List ExpertRef) (q : ExpertRef) → contains (sort_unstable xs) q ≡ contains xs q
unfolding sort_unstable contains
contains-sort_unstable [] q = refl
contains-sort_unstable (x ∷ xs) q =
    rw (contains-insert_sorted x (sort_unstable xs) q, contains-sort_unstable xs q) refl

pub contains-dedup_after :
    (last : ExpertRef) (xs : List ExpertRef) (q : ExpertRef)
    → (expert_eq last q || contains (dedup_after last xs) q) ≡ (expert_eq last q || contains xs q)
unfolding dedup_after contains
contains-dedup_after last [] q = refl
contains-dedup_after last (x ∷ xs) q = elim (Bool-cases (expert_eq last x)) [
  | inl same ↦ ground (arith, contains-dedup_after last xs q, expert_eq_iff last x)
  | inr differ ↦ ground (arith, contains-dedup_after x xs q)
]

contains-dedup : (xs : List ExpertRef) (q : ExpertRef) → contains (dedup xs) q ≡ contains xs q
unfolding dedup contains
contains-dedup [] q = refl
contains-dedup (x ∷ xs) q = contains-dedup_after x xs q

-- The sorted, deduplicated demands are the demands.
pub contains-distinct_of :
    (needed : List ExpertRef) (q : ExpertRef) → contains (distinct_of needed) q ≡ contains needed q
unfolding distinct_of
contains-distinct_of needed q =
    contains-dedup (sort_unstable needed) q ∙ contains-sort_unstable needed q

pub All-contains : (needed : List ExpertRef) → All (λ e. contains needed e ≡ true) needed
unfolding contains
All-contains [] = tt
All-contains (x ∷ xs) =
    (rw (beq_refl x) refl, All-imp _ _ xs (λ e h. or_true _ _ h) (All-contains xs))
  where
    or_true : (a b : Bool) → b ≡ true → (a || b) ≡ true
    or_true a b h = ground arith
