-- ===== src/Common/Sums.antt =====
-- Sums over the values of a map.
use mathlib.Core.List.{List, [], ◌∷◌}
use mathlib.Core.Option.{none, some}
use mathlib.Core.Path.{◌≡◌, refl}
use Prim.Native.Nat.{ℕ, ◌+◌, ◌≤◌}
use native.Mathlib.Omega.{arith}
use mo_earc.Common.Maps.{Eq, lookup, insert, remove, Distinct}

module _ {ℓ} {K V : Type ℓ} where
  unfoldable pub total : (V → ℕ) → List (K × V) → ℕ
  total f [] = 0
  total f ((k, v) ∷ m) = f v + total f m

module _ {ℓ} {K V : Type ℓ} ⦃e : Eq K⦄ (f : V → ℕ) where
  pub total-insert_new :
      (k : K) (v : V) (m : List (K × V))
      → lookup k m ≡ none
      → total f (insert k v m) ≡ total f m + f v
  unfolding total lookup insert
  total-insert_new k v [] h = omega arith
  total-insert_new k v ((j, w) ∷ m) h = ground (arith, total-insert_new k v m)

  pub total-insert_known :
      (k : K) (v w : V) (m : List (K × V))
      → lookup k m ≡ some w
      → total f (insert k v m) + f w ≡ total f m + f v
  unfolding total lookup insert
  total-insert_known k v w [] h = cc
  total-insert_known k v w ((j, u) ∷ m) h = ground (arith, total-insert_known k v w m)

  total-remove_absent :
      (k : K) (m : List (K × V)) → lookup k m ≡ none → total f (remove k m) ≡ total f m
  unfolding total lookup remove
  total-remove_absent k [] h = refl
  total-remove_absent k ((j, u) ∷ m) h = ground (arith, total-remove_absent k m)

  pub total-remove :
      (k : K) (w : V) (m : List (K × V))
      → Distinct m
      → lookup k m ≡ some w
      → total f (remove k m) + f w ≡ total f m
  unfolding total lookup remove
  total-remove k w [] d h = cc
  total-remove k w ((j, u) ∷ m) d h =
      ground (arith, total-remove k w m, total-remove_absent k m, e.beq_iff j k)

  pub le-total_of_lookup :
      (k : K) (w : V) (m : List (K × V)) → lookup k m ≡ some w → f w ≤ total f m
  unfolding total lookup
  le-total_of_lookup k w [] h = cc
  le-total_of_lookup k w ((j, u) ∷ m) h = ground (arith, le-total_of_lookup k w m)
