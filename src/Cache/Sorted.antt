-- ===== src/Cache/Sorted.antt =====
-- `sort_unstable` and `dedup` leave no expert twice, and no more experts than there were.
use mo_earc.Common.{
  ◌≤◌, ◌≡◌, ◌∙◌, refl, sym, arith, true, false, ◌||◌, List, [], ◌∷◌, length, contains, beq_refl,
  NoDup, Bool-cases, inl, inr, false≢true, length-le_of_subset,
}
use mo_earc.Cache.Types.{ExpertRef, expert_eq, expert_eq_iff, expert_ref_eq}
use mo_earc.Cache.Pool.{expert_le, insert_sorted, sort_unstable, dedup_after, dedup, distinct_of}
use mo_earc.Cache.Distinct.{contains-insert_sorted, contains-dedup_after, contains-distinct_of}

Below : ExpertRef → List ExpertRef → Type 0
Below e xs = (x : ExpertRef) → contains xs x ≡ true → expert_le e x ≡ true

Sorted : List ExpertRef → Type 0
Sorted [] = Unit
Sorted (x ∷ xs) = Below x xs × Sorted xs

expert_le_total : (a b : ExpertRef) → expert_le a b ≡ false → expert_le b a ≡ true
unfolding expert_le
expert_le_total a b h = ground arith

expert_le_trans :
    (a b c : ExpertRef) → expert_le a b ≡ true → expert_le b c ≡ true → expert_le a c ≡ true
unfolding expert_le
expert_le_trans a b c h k = ground arith

expert_le_antisym :
    (a b : ExpertRef) → expert_le a b ≡ true → expert_le b a ≡ true → expert_eq a b ≡ true
unfolding expert_le expert_eq
expert_le_antisym a b h k = ground arith

insert_sorted-Sorted :
    (e : ExpertRef) (xs : List ExpertRef) → Sorted xs → Sorted (insert_sorted e xs)
unfolding insert_sorted Sorted Below contains
insert_sorted-Sorted e [] s = ((λ x h. absurd (false≢true h)), tt)
insert_sorted-Sorted e (x ∷ xs) s = elim (Bool-cases (expert_le e x)) [
  | inl le ↦
      rw (le, insert_sorted)
        (
          (λ y h. elim (Bool-cases (expert_eq x y)) [
            | inl same ↦ rw (← (expert_eq_iff x y).0 same) le
            | inr differ ↦ expert_le_trans e x y le (s.0 y (ground arith))
          ]),
          s,
        )
  | inr gt ↦
      rw (gt, insert_sorted)
        (
          (λ y h. elim (Bool-cases (expert_eq e y)) [
            | inl same ↦ rw (← (expert_eq_iff e y).0 same) (expert_le_total e x gt)
            | inr differ ↦ s.0 y (
                let h' : (expert_eq e y || contains xs y) ≡ true =
                  rw (contains-insert_sorted e xs y) at h in
                ground arith)
          ]),
          insert_sorted-Sorted e xs s.1,
        )
]

sort_unstable-Sorted : (xs : List ExpertRef) → Sorted (sort_unstable xs)
unfolding sort_unstable Sorted
sort_unstable-Sorted [] = tt
sort_unstable-Sorted (x ∷ xs) = insert_sorted-Sorted x (sort_unstable xs) (sort_unstable-Sorted xs)

later_absent :
    (last x : ExpertRef) (xs : List ExpertRef)
    → expert_le last x ≡ true
    → Below x xs
    → expert_eq last x ≡ false
    → (expert_eq x last || contains (dedup_after x xs) last) ≡ false
later_absent last x xs le b differ =
    rw (contains-dedup_after x xs last) (elim (Bool-cases (contains xs last)) [
      | inl there ↦
          absurd
            (false≢true (sym differ ∙ expert_le_antisym last x le (unfold Below in (b last there))))
      | inr absent ↦ ground (arith, expert_eq_iff x last, expert_eq_iff last x)
    ])

dedup_after-NoDup :
    (last : ExpertRef) (xs : List ExpertRef)
    → Below last xs
    → Sorted xs
    → NoDup (dedup_after last xs) × (contains (dedup_after last xs) last ≡ false)
unfolding dedup_after Sorted Below NoDup contains
dedup_after-NoDup last [] b s = (tt, refl)
dedup_after-NoDup last (x ∷ xs) b s = elim (Bool-cases (expert_eq last x)) [
  | inl same ↦ rw (same, dedup_after) (dedup_after-NoDup last xs (λ y h. b y (ground arith)) s.1)
  | inr differ ↦
      let rest = dedup_after-NoDup x xs s.0 s.1 in
      rw (differ, dedup_after)
        ((rest.1, rest.0), later_absent last x xs (b x (rw (beq_refl x) refl)) s.0 differ)
]

dedup-NoDup : (xs : List ExpertRef) → Sorted xs → NoDup (dedup xs)
unfolding dedup Sorted NoDup
dedup-NoDup [] s = tt
dedup-NoDup (x ∷ xs) s = let rest = dedup_after-NoDup x xs s.0 s.1 in (rest.1, rest.0)

-- No demand is listed twice.
pub distinct_of-NoDup : (needed : List ExpertRef) → NoDup (distinct_of needed)
unfolding distinct_of
distinct_of-NoDup needed = dedup-NoDup (sort_unstable needed) (sort_unstable-Sorted needed)

pub length-distinct_of_le : (needed : List ExpertRef) → length (distinct_of needed) ≤ length needed
length-distinct_of_le needed =
    length-le_of_subset (distinct_of needed) needed (distinct_of-NoDup needed)
      (λ x h. sym (contains-distinct_of needed x) ∙ h)

-- Any list of the demands without repetition has their number.
pub length-distinct_of :
    (needed seen : List ExpertRef)
    → NoDup seen
    → ((x : ExpertRef) → contains seen x ≡ contains needed x)
    → length seen ≡ length (distinct_of needed)
length-distinct_of needed seen once same =
    let below =
      length-le_of_subset seen (distinct_of needed) once
        (λ x h. contains-distinct_of needed x ∙ sym (same x) ∙ h) in
    let above =
      length-le_of_subset (distinct_of needed) seen (distinct_of-NoDup needed)
        (λ x h. same x ∙ sym (contains-distinct_of needed x) ∙ h) in
    omega (arith, below, above)
