-- ===== src/Common/Maps.antt =====
-- Hash maps as association lists. The sources only look up, insert, remove and count, or take a
-- minimum over all entries, so the order of the entries is a choice of the model.
use Prim.Native.Nat.{ℕ, ◌+◌, ◌≤◌}
use mathlib.Core.Bool.{Bool, true, false, ◌||◌, false≢true}
use mathlib.Core.List.{List, [], ◌∷◌}
use mathlib.Core.Logic.{◌↔◌, ◌≢◌, inl, inr}
use mathlib.Core.Option.{Option, none, some}
use mathlib.Core.Path.{◌≡◌, refl}
use native.Mathlib.Omega.{arith}
use mo_earc.Common.Lists.{length}
use mo_earc.Common.Tests.{if◌then◌else◌, Bool-cases, ==_iff, ◌==◌}

-- The `Eq` of the keys.
pub record Eq {ℓ} (A : Type ℓ) : Type ℓ where
  pub beq : A → A → Bool
  pub beq_iff : (x y : A) → (beq x y ≡ true) ↔ (x ≡ y)

instance abbrev pub nat_eq : Eq ℕ
nat_eq = record { beq = ◌==◌; beq_iff = ==_iff }

pub none≢some {ℓ} : {A : Type ℓ} {o : Option A} {a : A} → o ≡ none → o ≡ some a → ⊥
none≢some p q = cc

module _ {ℓ} {K : Type ℓ} ⦃e : Eq K⦄ where
  pub beq_refl : (a : K) → e.beq a a ≡ true
  beq_refl a = (e.beq_iff a a).1 refl

  pub beq_ne : (a b : K) → a ≢ b → e.beq a b ≡ false
  beq_ne a b ne = elim (Bool-cases (e.beq a b)) [
    | inl same ↦ absurd (ne ((e.beq_iff a b).0 same))
    | inr differ ↦ differ
  ]

  unfoldable pub contains : List K → K → Bool
  contains [] a = false
  contains (x ∷ xs) a = e.beq x a || contains xs a

  -- Without the first occurrence.
  unfoldable pub erase : K → List K → List K
  erase a [] = []
  erase a (x ∷ xs) = if e.beq x a then xs else x ∷ erase a xs

  pub length-erase :
      (a : K) (xs : List K) → contains xs a ≡ true → length (erase a xs) + 1 ≡ length xs
  unfolding contains erase
  length-erase a [] h = cc
  length-erase a (x ∷ xs) h = ground (arith, length-erase a xs)

  pub contains-erase_ne :
      (a b : K) (xs : List K) → a ≢ b → contains xs b ≡ true → contains (erase a xs) b ≡ true
  unfolding contains erase
  contains-erase_ne a b [] ne h = h
  contains-erase_ne a b (x ∷ xs) ne h =
      ground (arith, contains-erase_ne a b xs, e.beq_iff x a, e.beq_iff x b)

module _ {ℓ} {K V : Type ℓ} ⦃e : Eq K⦄ where
  unfoldable pub lookup : K → List (K × V) → Option V
  lookup k [] = none
  lookup k ((j, v) ∷ m) = if e.beq j k then some v else lookup k m

  unfoldable pub insert : K → V → List (K × V) → List (K × V)
  insert k v [] = (k, v) ∷ []
  insert k v ((j, w) ∷ m) = if e.beq j k then (k, v) ∷ m else (j, w) ∷ insert k v m

  unfoldable pub remove : K → List (K × V) → List (K × V)
  remove k [] = []
  remove k ((j, w) ∷ m) = let rest = remove k m in if e.beq j k then rest else (j, w) ∷ rest

  unfoldable pub keys : List (K × V) → List K
  keys [] = []
  keys ((k, v) ∷ m) = k ∷ keys m

  -- No key twice.
  abbrev pub Distinct : List (K × V) → Type ℓ
  Distinct [] = Unit
  Distinct ((k, v) ∷ m) = (lookup k m ≡ none) × Distinct m

  pub lookup-insert :
      (key j : K) (v : V) (m : List (K × V))
      → lookup j (insert key v m) ≡ (if e.beq key j then some v else lookup j m)
  unfolding lookup insert
  lookup-insert k j v [] = refl
  lookup-insert k j v ((i, w) ∷ m) =
      ground (arith, e.beq_iff k j, e.beq_iff i k, e.beq_iff i j, lookup-insert k j v m)

  pub lookup-remove :
      (k j : K) (m : List (K × V))
      → lookup j (remove k m) ≡ (if e.beq k j then none else lookup j m)
  unfolding lookup remove
  lookup-remove k j [] = ground arith
  lookup-remove k j ((i, w) ∷ m) =
      ground (arith, e.beq_iff k j, e.beq_iff i k, e.beq_iff i j, lookup-remove k j m)

  pub length-insert_new :
      (k : K) (v : V) (m : List (K × V)) → lookup k m ≡ none → length (insert k v m) ≡ length m + 1
  unfolding lookup insert
  length-insert_new k v [] h = omega arith
  length-insert_new k v ((j, w) ∷ m) h = ground (arith, length-insert_new k v m)

  remove_absent : (k : K) (m : List (K × V)) → lookup k m ≡ none → remove k m ≡ m
  unfolding lookup remove
  remove_absent k [] h = refl
  remove_absent k ((j, w) ∷ m) h = ground (arith, remove_absent k m)

  pub length-remove :
      (k : K) (m : List (K × V)) (v : V)
      → Distinct m
      → lookup k m ≡ some v
      → length (remove k m) + 1 ≡ length m
  unfolding lookup remove
  length-remove k [] v d h = cc
  length-remove k ((j, w) ∷ m) v d h =
      ground (arith, length-remove k m v, remove_absent k m, e.beq_iff j k)

  pub insert-Distinct : (k : K) (v : V) (m : List (K × V)) → Distinct m → Distinct (insert k v m)
  unfolding lookup insert
  insert-Distinct k v [] d = (refl, tt)
  insert-Distinct k v ((j, w) ∷ m) d =
      ground (arith, insert-Distinct k v m d.1, lookup-insert k j v m, e.beq_iff j k, e.beq_iff k j)

  pub remove-Distinct : (k : K) (m : List (K × V)) → Distinct m → Distinct (remove k m)
  unfolding remove
  remove-Distinct k [] d = d
  remove-Distinct k ((j, w) ∷ m) d = ground (arith, remove-Distinct k m d.1, lookup-remove k j m)

  -- Pigeonhole: distinct keys that all stand in a list are no more than its length.
  pub length-le_of_contains :
      (m : List (K × V)) (xs : List K)
      → Distinct m
      → ((k : K) (v : V) → lookup k m ≡ some v → contains xs k ≡ true)
      → length m ≤ length xs
  unfolding lookup
  length-le_of_contains [] xs d all = omega arith
  length-le_of_contains ((k, v) ∷ m) xs d all =
      let here = all k v (rw (beq_refl k) refl) in
      let rest = length-le_of_contains m (erase k xs) d.1 (λ j w h.
        let ne : k ≢ j = λ same. none≢some {a = w} d.0 (rw same h) in
        contains-erase_ne k j xs ne (all j w (rw (beq_ne k j ne) h))) in
      omega (arith, length-erase k xs here)

  pub contains-keys :
      (m : List (K × V)) (k : K) → contains (keys m) k ≡ true → (v : V) × (lookup k m ≡ some v)
  unfolding lookup keys contains
  contains-keys [] k h = absurd (false≢true h)
  contains-keys ((j, v) ∷ m) k h = elim (Bool-cases (e.beq j k)) [
    | inl same ↦ rw same (v, refl)
    | inr differ ↦ rw differ (contains-keys m k (rw differ at h))
  ]

  pub contains-keys_of_lookup :
      (m : List (K × V)) (k : K) (v : V) → lookup k m ≡ some v → contains (keys m) k ≡ true
  unfolding lookup keys contains
  contains-keys_of_lookup [] k v h = cc
  contains-keys_of_lookup ((j, w) ∷ m) k v h = ground (arith, contains-keys_of_lookup m k v)
