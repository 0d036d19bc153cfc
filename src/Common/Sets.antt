-- ===== src/Common/Sets.antt =====
-- Lists as sets: without repetition, and what an element more or less does to them.
use mathlib.Core.Path.{◌≡◌, refl, sym, ◌∙◌}
use mathlib.Core.Logic.{◌≢◌}
use mathlib.Core.Bool.{true, false, not, ◌&&◌, ◌||◌, false≢true}
use mathlib.Core.List.{List, [], ◌∷◌, ◌++◌}
use Prim.Native.Nat.{◌+◌, ◌≤◌}
use native.Mathlib.Omega.{arith}
use mo_earc.Common.Tests.{if◌then◌else◌}
use mo_earc.Common.Lists.{length}
use mo_earc.Common.Maps.{Eq, beq_refl, beq_ne, contains, erase, length-erase, contains-erase_ne}

module _ {K : Type 0} ⦃e : Eq K⦄ where
  unfoldable pub NoDup : List K → Type 0
  NoDup [] = Unit
  NoDup (x ∷ xs) = (contains xs x ≡ false) × NoDup xs

  -- All but every occurrence of an element.
  unfoldable pub without : K → List K → List K
  without v [] = []
  without v (x ∷ xs) = let rest = without v xs in if e.beq x v then rest else x ∷ rest

  pub contains-append :
      (xs ys : List K) (x : K) → contains (xs ++ ys) x ≡ (contains xs x || contains ys x)
  unfolding contains
  contains-append [] ys x = refl
  contains-append (y ∷ xs) ys x = ground (arith, contains-append xs ys x)

  pub contains-without :
      (v : K) (xs : List K) (x : K) → contains (without v xs) x ≡ (contains xs x && not (e.beq v x))
  unfolding contains without
  contains-without v [] x = refl
  contains-without v (y ∷ xs) x =
      ground (arith, contains-without v xs x, e.beq_iff y v, e.beq_iff y x, e.beq_iff v x)

  pub without-NoDup : (v : K) (xs : List K) → NoDup xs → NoDup (without v xs)
  unfolding NoDup without contains
  without-NoDup v [] h = tt
  without-NoDup v (x ∷ xs) h = ground (arith, without-NoDup v xs h.1, contains-without v xs x, h.0)

  without_absent : (v : K) (xs : List K) → contains xs v ≡ false → without v xs ≡ xs
  unfolding without contains
  without_absent v [] h = refl
  without_absent v (x ∷ xs) h = ground (arith, without_absent v xs)

  pub length-without :
      (v : K) (xs : List K)
      → NoDup xs
      → contains xs v ≡ true
      → length (without v xs) + 1 ≡ length xs
  unfolding NoDup without contains
  length-without v [] d h = cc
  length-without v (x ∷ xs) d h =
      ground (arith, length-without v xs d.1, without_absent v xs, e.beq_iff x v, d.0)

  pub append_one-NoDup :
      (xs : List K) (x : K) → NoDup xs → contains xs x ≡ false → NoDup (xs ++ (x ∷ []))
  unfolding NoDup contains
  append_one-NoDup [] x d h = (refl, tt)
  append_one-NoDup (y ∷ xs) x d h = ground (
    arith,
    append_one-NoDup xs x d.1,
    contains-append xs (x ∷ []) y,
    d.0,
    e.beq_iff x y,
    e.beq_iff y x,
  )

  -- Pigeonhole: a list without repetition is no longer than one that has all of its elements.
  pub length-le_of_subset :
      (xs ys : List K)
      → NoDup xs
      → ((x : K) → contains xs x ≡ true → contains ys x ≡ true)
      → length xs ≤ length ys
  unfolding NoDup contains
  length-le_of_subset [] ys d all = omega arith
  length-le_of_subset (x ∷ xs) ys d all =
      let here = all x (rw (beq_refl x) refl) in
      let rest = length-le_of_subset xs (erase x ys) d.1 (λ y h.
        let ne : x ≢ y = λ same. false≢true (sym d.0 ∙ (rw same h)) in
        contains-erase_ne x y ys ne (all y (rw (beq_ne x y ne) h))) in
      omega (arith, length-erase x ys here)
