-- ===== src/Common/Results.antt =====
-- `Result<T, E>` with its `?`, for the parts of the sources that do not panic.
use mathlib.Core.Path.{◌≡◌, refl}
use mathlib.Core.Bool.{Bool}
use mathlib.Core.Logic.{◌⊎◌, inl, inr}

pub data Result {ℓ} (E : Type 0) (A : Type ℓ) : Type ℓ where
  ok : A → Result E A
  err : E → Result E A

module _ {E : Type 0} where
  infixl 5 ◌>>=◌ ◌>>◌
  abbrev pub ◌>>=◌ {ℓ κ} : {A : Type ℓ} {B : Type κ} → Result E A → (A → Result E B) → Result E B
  ok x >>= rest = rest x
  err e >>= rest = err e

  abbrev pub ◌>>◌ {ℓ} : {B : Type ℓ} → Result E (Unit {0}) → Result E B → Result E B
  first >> second = first >>= λ _. second

  -- `if bad { return Err(e) }`
  abbrev pub refuse : Bool → E → Result E (Unit {0})
  refuse Bool.true e = err e
  refuse Bool.false e = ok tt

  -- A chain of fallible steps that succeeds has succeeded at each.
  pub >>=-eq-ok {ℓ κ} :
      {A : Type ℓ} {B : Type κ} (first : Result E A) (rest : A → Result E B) {out : B}
      → (first >>= rest) ≡ ok out
      → (x : A) × (first ≡ ok x) × (rest x ≡ ok out)
  >>=-eq-ok (ok x) rest ran = (x, refl, ran)
  >>=-eq-ok (err e) rest ran = cc

  pub refuse-eq-ok : (bad : Bool) (e : E) {u : Unit {0}} → refuse bad e ≡ ok u → bad ≡ Bool.false
  refuse-eq-ok Bool.true e h = cc
  refuse-eq-ok Bool.false e h = refl

  pub Result-cases {ℓ} :
      {A : Type ℓ} (r : Result E A) → ((e : E) × (r ≡ err e)) ⊎ ((x : A) × (r ≡ ok x))
  Result-cases (ok x) = inr (x, refl)
  Result-cases (err e) = inl (e, refl)
