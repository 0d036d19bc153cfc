-- ===== src/Cache/Occupancy.antt =====
-- The occupants: how many slots are vacant, and what `first_empty_slot` finds.
use mo_earc.Common.{
  ℕ, zero, suc, ◌+◌, ◌≡◌, refl, arith, Option, none, some, List, [], ◌∷◌, get_elem?, set, replicate,
}
use mo_earc.Cache.Types.{ExpertRef}
use mo_earc.Cache.Pool.{first_empty_from}

abbrev pub vacancies : List (Option ExpertRef) → ℕ
vacancies [] = 0
vacancies (none ∷ slots) = suc (vacancies slots)
vacancies (some e ∷ slots) = vacancies slots

pub vacancies-replicate : (n : ℕ) → vacancies (replicate n none) ≡ n
vacancies-replicate zero = refl
vacancies-replicate (suc n) = omega (arith, vacancies-replicate n)

pub vacancies-set_vacant :
    (slots : List (Option ExpertRef)) (s : ℕ) (e : ExpertRef)
    → get_elem? slots s ≡ some none
    → vacancies (set slots s (some e)) + 1 ≡ vacancies slots
vacancies-set_vacant [] s e h = cc
vacancies-set_vacant (none ∷ slots) zero e h = omega arith
vacancies-set_vacant (some x ∷ slots) zero e h = cc
vacancies-set_vacant (none ∷ slots) (suc s) e h = omega (arith, vacancies-set_vacant slots s e h)
vacancies-set_vacant (some x ∷ slots) (suc s) e h = vacancies-set_vacant slots s e h

pub vacancies-set_taken :
    (slots : List (Option ExpertRef)) (s : ℕ) (x e : ExpertRef)
    → get_elem? slots s ≡ some (some x)
    → vacancies (set slots s (some e)) ≡ vacancies slots
vacancies-set_taken [] s x e h = cc
vacancies-set_taken (none ∷ slots) zero x e h = cc
vacancies-set_taken (some y ∷ slots) zero x e h = refl
vacancies-set_taken (none ∷ slots) (suc s) x e h = omega (arith, vacancies-set_taken slots s x e h)
vacancies-set_taken (some y ∷ slots) (suc s) x e h = vacancies-set_taken slots s x e h

pub first_empty_from-some :
    (i : ℕ) (slots : List (Option ExpertRef)) (s : ℕ)
    → first_empty_from i slots ≡ some s
    → (j : ℕ) × (s ≡ i + j) × (get_elem? slots j ≡ some none)
unfolding first_empty_from
first_empty_from-some i [] s h = cc
first_empty_from-some i (none ∷ slots) s h = (0, omega (arith, i_is_s), refl)
  where
    i_is_s : i ≡ s
    i_is_s = cc
first_empty_from-some i (some e ∷ slots) s h =
    let (j, at, vacant) = first_empty_from-some (i + 1) slots s h in (suc j, omega arith, vacant)

pub first_empty_from-none :
    (i : ℕ) (slots : List (Option ExpertRef))
    → first_empty_from i slots ≡ none
    → vacancies slots ≡ 0
unfolding first_empty_from
first_empty_from-none i [] h = refl
first_empty_from-none i (none ∷ slots) h = cc
first_empty_from-none i (some e ∷ slots) h = first_empty_from-none (i + 1) slots h
