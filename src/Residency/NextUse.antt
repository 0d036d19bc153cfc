-- ===== src/Residency/NextUse.antt =====
-- `NextUse`: the steps in which each expert is used, which only Belady's policy may read.
use mo_earc.Common.{
  ℕ, ◌+◌, Bool, false, ltb, ◌==◌, if◌then◌else◌, Option, none, some, List, [], ◌∷◌, ◌++◌, get_elem?,
  lookup, insert,
}
use mo_earc.Cache.Types.{ExpertRef, expert_ref_eq}
use mo_earc.Residency.Types.{Trace, NextUse}

-- `v.last()`.
unfoldable pub last_of : List ℕ → Option ℕ
last_of [] = none
last_of (i ∷ is) = elim is [ [] ↦ some i | ◌∷◌ j js ↦ last_of is ]

-- `if v.last() != Some(&i) { v.push(i) }`
unfoldable pub push_step : ℕ → List ℕ → List ℕ
push_step i v = elim (last_of v) [
  | none ↦ v ++ (i ∷ [])
  | some j ↦ if j == i then v else v ++ (i ∷ [])
]

unfoldable pub steps_of : ExpertRef → List (ExpertRef × List ℕ) → List ℕ
steps_of e m = elim (lookup e m) [ none ↦ [] | some v ↦ v ]

unfoldable pub build_step :
    ℕ → List ExpertRef → List (ExpertRef × List ℕ) → List (ExpertRef × List ℕ)
build_step i [] m = m
build_step i (e ∷ es) m = build_step i es (insert e (push_step i (steps_of e m)) m)

unfoldable pub build_from :
    ℕ → List (List ExpertRef) → List (ExpertRef × List ℕ) → List (ExpertRef × List ℕ)
build_from i [] m = m
build_from i (s ∷ ss) m = build_from (i + 1) ss (build_step i s m)

unfoldable pub build : Trace → NextUse
build t = record { occurrences = build_from 0 t.steps [] }

-- `binary_search` of an ascending vector: whether it has `x`, and the number of what is below `x`.
unfoldable pub binary_search : List ℕ → ℕ → Bool × ℕ
binary_search [] x = (false, 0)
binary_search (y ∷ ys) x =
    let (found, i) = binary_search ys x in if ltb y x then (found, i + 1) else (y == x, 0)

unfoldable pub after_in : List ℕ → ℕ → Option ℕ
after_in v step =
    let (found, i) = binary_search v step in if found then get_elem? v (i + 1) else get_elem? v i

unfoldable pub after : NextUse → ExpertRef → ℕ → Option ℕ
after nu e step = elim (lookup e nu.occurrences) [ none ↦ none | some v ↦ after_in v step ]
