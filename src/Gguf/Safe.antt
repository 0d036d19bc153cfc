-- ===== src/Gguf/Safe.antt =====
-- Parsed results that are not an error of the file system, and whose value has a property.
use mo_earc.Common.{◌≡◌, ◌≢◌, ap, Bool, refl, if◌then◌else◌}
use mo_earc.Common.Results.{ok, err, ◌>>=◌, ◌>>◌, refuse}
use mo_earc.Gguf.Types.{ModelError, Parsed, io}

module _ {A : Type 0} where
  unfoldable pub Safe : (A → Type 0) → Parsed A → Type 0
  Safe P (ok x) = P x
  Safe P (err e) = e ≢ io

  pub Safe-no_io : (P : A → Type 0) (m : Parsed A) → Safe P m → m ≢ err io
  unfolding Safe
  Safe-no_io P (ok x) s h = cc
  Safe-no_io P (err e) s h = let same : e ≡ io = cc in s same

  pub Safe-ok : (P : A → Type 0) (m : Parsed A) {x : A} → Safe P m → m ≡ ok x → P x
  unfolding Safe
  Safe-ok P (ok y) {x} s h = let same : y ≡ x = cc in rw (← same) s
  Safe-ok P (err e) s h = cc

module _ {A B : Type 0} (P : A → Type 0) (Q : B → Type 0) where
  pub >>=-Safe :
      (m : Parsed A) (rest : A → Parsed B)
      → Safe P m
      → ((x : A) → P x → Safe Q (rest x))
      → Safe Q (m >>= rest)
  unfolding Safe
  >>=-Safe (ok x) rest s f = f x s
  >>=-Safe (err e) rest s f = s

pub refuse-Safe :
    {B : Type 0} (Q : B → Type 0) (bad : Bool) (e : ModelError) (rest : Parsed B)
    → e ≢ io
    → (bad ≡ Bool.false → Safe Q rest)
    → Safe Q (refuse bad e >> rest)
unfolding Safe
refuse-Safe Q Bool.true e rest known f = known
refuse-Safe Q Bool.false e rest known f = f refl

pub if-Safe :
    {B : Type 0} (Q : B → Type 0) (b : Bool) (one two : Parsed B)
    → Safe Q one
    → Safe Q two
    → Safe Q (if b then one else two)
if-Safe Q Bool.true one two s t = s
if-Safe Q Bool.false one two s t = t

pub refuse_alone :
    (Q : Unit {0} → Type 0) (bad : Bool) (e : ModelError)
    → e ≢ io
    → (bad ≡ Bool.false → Q tt)
    → Safe Q (refuse bad e)
unfolding Safe
refuse_alone Q Bool.true e known f = known
refuse_alone Q Bool.false e known f = f refl

pub Safe-self : {A : Type 0} (m : Parsed A) → m ≢ err io → Safe (λ x. m ≡ ok x) m
unfolding Safe
Safe-self (ok x) known = refl
Safe-self (err e) known = λ same. known (ap err same)

pub Safe-imp :
    {A : Type 0} (P Q : A → Type 0) (m : Parsed A) → ((x : A) → P x → Q x) → Safe P m → Safe Q m
unfolding Safe
Safe-imp P Q (ok x) f s = f x s
Safe-imp P Q (err e) f s = s
