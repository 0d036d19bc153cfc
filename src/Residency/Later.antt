-- ===== src/Residency/Later.antt =====
-- `NextUse` against the trace: the next step in which an expert is used.
use mathlib.Core.List.{append_assoc, append-nil}
use mo_earc.Common.{
  ℕ, suc, ◌+◌, ◌⊎◌, ◌≤◌, ◌<◌, ◌≡◌, refl, sym, ap, ◌∙◌, arith, true, false, ◌&&◌, Bool-cases, inl,
  inr, ltb, ltb→lt, ltb→le, lt→ltb, le→ltb, ◌==◌, if◌then◌else◌, Option, none, some, Option-cases,
  List, [], ◌∷◌, ◌++◌, All, All-imp, All-append_one, contains, get_elem?, lookup, insert,
  lookup-insert,
}
use mo_earc.Cache.Types.{ExpertRef, expert_eq, expert_eq_iff, expert_ref_eq}
use mo_earc.Residency.Types.{Trace, NextUse}
use mo_earc.Residency.NextUse.{
  last_of, push_step, steps_of, build_step, build_from, build, binary_search, after_in, after,
}

-- The first step after `step` in which `e` is used, with the steps counted from `i`.
unfoldable pub next_after : ExpertRef → ℕ → ℕ → List (List ExpertRef) → Option ℕ
next_after e step i [] = none
next_after e step i (s ∷ ss) =
    let later = next_after e step (i + 1) ss in if contains s e && ltb step i then some i else later

-- Every step in which `e` is used.
used_in : ExpertRef → ℕ → List (List ExpertRef) → List ℕ
used_in e i [] = []
used_in e i (s ∷ ss) = let later = used_in e (i + 1) ss in if contains s e then i ∷ later else later

last_of-snoc : (v : List ℕ) (i : ℕ) → last_of (v ++ (i ∷ [])) ≡ some i
unfolding last_of
last_of-snoc [] i = refl
last_of-snoc (x ∷ []) i = refl
last_of-snoc (x ∷ y ∷ v) i = last_of-snoc (y ∷ v) i

push_step-cases : (i : ℕ) (v : List ℕ) → (push_step i v ≡ v) ⊎ (push_step i v ≡ v ++ (i ∷ []))
unfolding push_step
push_step-cases i v = by_last (last_of v)
  where
    by_last :
        (o : Option ℕ)
        → ((elim o as (λ x. List ℕ) [
          | none ↦ v ++ (i ∷ [])
          | some j ↦ if j == i then v else v ++ (i ∷ [])
        ])
            ≡ v)
          ⊎ ((elim o as (λ x. List ℕ) [
            | none ↦ v ++ (i ∷ [])
            | some j ↦ if j == i then v else v ++ (i ∷ [])
          ])
              ≡ v ++ (i ∷ []))
    by_last none = inr refl
    by_last (some j) = elim (Bool-cases (j == i)) [
      | inl same ↦ inl (rw same refl)
      | inr differ ↦ inr (rw differ refl)
    ]

push_step-last : (i : ℕ) (v : List ℕ) → last_of v ≡ some i → push_step i v ≡ v
unfolding push_step
push_step-last i v last =
    let itself : (i == i) ≡ true = ground arith in rw (last, push_step) (rw itself refl)

push_step_twice : (i : ℕ) (v : List ℕ) → push_step i (push_step i v) ≡ push_step i v
push_step_twice i v = elim (push_step-cases i v) [
  | inl same ↦ rw (same, same) refl
  | inr longer ↦ rw longer (push_step-last i (v ++ (i ∷ [])) (last_of-snoc v i))
]

-- In a vector of earlier steps the step is new.
last_of-lt : (v : List ℕ) (i : ℕ) {j : ℕ} → All (λ x. x < i) v → last_of v ≡ some j → j < i
unfolding last_of
last_of-lt [] i h e = cc
last_of-lt (x ∷ []) i {j} h e = let same : x ≡ j = cc in omega (arith, same, h.0)
last_of-lt (x ∷ y ∷ v) i h e = last_of-lt (y ∷ v) i h.1 e

push_step-new : (i : ℕ) (v : List ℕ) → All (λ x. x < i) v → push_step i v ≡ v ++ (i ∷ [])
unfolding push_step
push_step-new i v h = elim (Option-cases (last_of v)) [
  | inl empty ↦ rw (empty, push_step) refl
  | inr (j, last) ↦
      let differ : (j == i) ≡ false = ground (arith, last_of-lt v i h last) in
      rw (last, push_step) (rw differ refl)
]

steps_of-insert :
    (e x : ExpertRef) (v : List ℕ) (m : List (ExpertRef × List ℕ))
    → steps_of e (insert x v m) ≡ (if expert_eq x e then v else steps_of e m)
unfolding steps_of
steps_of-insert e x v m =
    rw (lookup-insert x e v m, steps_of)
      (elim (Bool-cases (expert_eq x e)) [ inl same ↦ rw same refl | inr differ ↦ rw differ refl ])

steps_of-build_step :
    (e : ExpertRef) (i : ℕ) (es : List ExpertRef) (m : List (ExpertRef × List ℕ))
    → steps_of e (build_step i es m)
      ≡ (if contains es e then push_step i (steps_of e m) else steps_of e m)
unfolding build_step contains
steps_of-build_step e i [] m = refl
steps_of-build_step e i (x ∷ es) m =
    rw
      (
        steps_of-build_step e i es (insert x (push_step i (steps_of x m)) m),
        steps_of-insert e x (push_step i (steps_of x m)) m,
      )
      (elim (Bool-cases (expert_eq x e)) [
        | inl same ↦
            rw (same, (expert_eq_iff x e).0 same)
              (elim (Bool-cases (contains es e)) [
                | inl again ↦ rw again (push_step_twice i (steps_of e m))
                | inr once ↦ rw once refl
              ])
        | inr differ ↦ rw differ refl
      ])

steps_of-build_from :
    (e : ExpertRef) (i : ℕ) (ss : List (List ExpertRef)) (m : List (ExpertRef × List ℕ))
    → All (λ x. x < i) (steps_of e m)
    → steps_of e (build_from i ss m) ≡ steps_of e m ++ used_in e i ss
unfolding build_from used_in
steps_of-build_from e i [] m h = sym (append-nil (steps_of e m))
steps_of-build_from e i (s ∷ ss) m h =
    let was = steps_of-build_step e i s m in
    elim (Bool-cases (contains s e)) [
      | inl used ↦
          let now : steps_of e (build_step i s m) ≡ steps_of e m ++ (i ∷ []) =
            was ∙ (rw used (push_step-new i (steps_of e m) h)) in
          rw used (
            steps_of-build_from e (i + 1) ss (build_step i s m) (
              rw now (
                All-append_one _ (steps_of e m) i
                  (All-imp _ _ (steps_of e m) (λ x k. omega arith) h) (omega arith)))
            ∙ ap (λ v. v ++ used_in e (i + 1) ss) now
            ∙ append_assoc (steps_of e m) (i ∷ []) (used_in e (i + 1) ss))
      | inr unused ↦
          let now : steps_of e (build_step i s m) ≡ steps_of e m = was ∙ (rw unused refl) in
          rw unused (
            steps_of-build_from e (i + 1) ss (build_step i s m)
              (rw now (All-imp _ _ (steps_of e m) (λ x k. omega arith) h))
            ∙ ap (λ v. v ++ used_in e (i + 1) ss) now)
    ]

-- The first of a vector above a step.
first_above : ℕ → List ℕ → Option ℕ
first_above step [] = none
first_above step (x ∷ xs) = let rest = first_above step xs in if ltb step x then some x else rest

Ascending : List ℕ → Type 0
Ascending [] = Unit
Ascending (x ∷ xs) = All (λ y. x < y) xs × Ascending xs

first_above-All :
    (step : ℕ) (xs : List ℕ) → All (λ y. step < y) xs → first_above step xs ≡ get_elem? xs 0
unfolding first_above
first_above-All step [] h = refl
first_above-All step (x ∷ xs) h = rw (lt→ltb step x h.0) refl

get_elem?-next : (x : ℕ) (xs : List ℕ) (n : ℕ) → get_elem? (x ∷ xs) (n + 1) ≡ get_elem? xs n
get_elem?-next x xs n = let e : n + 1 ≡ suc n = omega arith in rw e refl

after_in-first_above :
    (xs : List ℕ) (step : ℕ) → Ascending xs → after_in xs step ≡ first_above step xs
unfolding after_in binary_search first_above Ascending
after_in-first_above [] step a = refl
after_in-first_above (x ∷ xs) step a = elim (Bool-cases (ltb x step)) [
  | inl below ↦
      let not_above : ltb step x ≡ false = le→ltb x step (omega (arith, ltb→lt x step below)) in
      rw (below, after_in)
        (rw not_above (
          rw
            (
              get_elem?-next x xs ((binary_search xs step).1 + 1),
              get_elem?-next x xs (binary_search xs step).1,
            )
            (after_in-first_above xs step a.1)))
  | inr not_below ↦ elim (Bool-cases (x == step)) [
    | inl here ↦
        let same : x ≡ step = ground arith in
        let not_above : ltb step x ≡ false = le→ltb x step (omega (arith, same)) in
        rw (not_below, after_in)
          (rw here (rw not_above (sym (first_above-All step xs (rw (← same) a.0)))))
    | inr above ↦
        let over : ltb step x ≡ true = lt→ltb step x (ground (arith, ltb→le x step not_below)) in
        rw (not_below, after_in) (rw above (rw over refl))
  ]
]

used_in-from :
    (e : ExpertRef) (i : ℕ) (ss : List (List ExpertRef)) → All (λ x. i ≤ x) (used_in e i ss)
unfolding used_in
used_in-from e i [] = tt
used_in-from e i (s ∷ ss) =
    let rest : All (λ x. i ≤ x) (used_in e (i + 1) ss) =
      All-imp _ _ (used_in e (i + 1) ss) (λ x k. omega arith) (used_in-from e (i + 1) ss) in
    elim (Bool-cases (contains s e)) [
      | inl used ↦ rw used (omega arith, rest)
      | inr unused ↦ rw unused rest
    ]

used_in-Ascending :
    (e : ExpertRef) (i : ℕ) (ss : List (List ExpertRef)) → Ascending (used_in e i ss)
unfolding used_in Ascending
used_in-Ascending e i [] = tt
used_in-Ascending e i (s ∷ ss) = elim (Bool-cases (contains s e)) [
  | inl used ↦ rw used (
    All-imp _ _ (used_in e (i + 1) ss) (λ x k. omega arith) (used_in-from e (i + 1) ss),
    used_in-Ascending e (i + 1) ss,
  )
  | inr unused ↦ rw unused (used_in-Ascending e (i + 1) ss)
]

first_above-used_in :
    (e : ExpertRef) (step i : ℕ) (ss : List (List ExpertRef))
    → first_above step (used_in e i ss) ≡ next_after e step i ss
unfolding first_above used_in next_after
first_above-used_in e step i [] = refl
first_above-used_in e step i (s ∷ ss) = elim (Bool-cases (contains s e)) [
  | inl used ↦ rw used (rw (first_above-used_in e step (i + 1) ss) refl)
  | inr unused ↦ rw unused (first_above-used_in e step (i + 1) ss)
]

after-steps_of :
    (nu : NextUse) (e : ExpertRef) (step : ℕ)
    → after nu e step ≡ after_in (steps_of e nu.occurrences) step
unfolding after steps_of after_in binary_search
after-steps_of nu e step = elim (Option-cases (lookup e nu.occurrences)) [
  | inl unknown ↦ rw (unknown, after, steps_of) refl
  | inr (v, known) ↦ rw (known, after, steps_of) refl
]

-- `NextUse::after`, by binary search in the table that `build` makes of a trace, is the first later step
-- of the trace in which the expert is used, and none where there is no such step.
pub after-next_after :
    (trace : Trace) (e : ExpertRef) (step : ℕ)
    → after (build trace) e step ≡ next_after e step 0 trace.steps
unfolding build
after-next_after trace e step =
    let nothing_yet : steps_of e [] ≡ [] = unfold steps_of lookup in refl in
    let table : steps_of e (build_from 0 trace.steps []) ≡ used_in e 0 trace.steps =
      steps_of-build_from e 0 trace.steps [] (rw nothing_yet tt) ∙ (rw nothing_yet refl) in
    after-steps_of (build trace) e step
    ∙ (rw table
        (after_in-first_above (used_in e 0 trace.steps) step (used_in-Ascending e 0 trace.steps)))
    ∙ first_above-used_in e step 0 trace.steps
