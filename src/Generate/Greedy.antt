-- ===== src/Generate/Greedy.antt =====
-- `argmax` of session.rs, with which a greedy generation samples. The numbers and their `>` are
-- parameters.
use mathlib.Core.List.{append_assoc, append-nil}
use Prim.Native.Nat.{◌^◌}
use native.Mathlib.Nat.{mod-eq_of_lt}
use mo_earc.Common.{
  ap, All, All-append, All-append_one, All-imp, length-append, false≢true, ◌++◌, ◌∙◌, ◌%◌, ℕ, suc,
  ◌+◌, ◌≤◌, ◌≡◌, ◌⊎◌, inl, inr, refl, sym, arith, Bool, true, false, Bool-cases, List, [], ◌∷◌,
  length, if◌then◌else◌,
}
use mo_earc.Generate.Types.{StopConditions}
use mo_earc.Generate.Drive.{Turn, Ended}
use mo_earc.Generate.Device.{Model}
use mo_earc.Generate.Session.{SessionError, Link, generate_with}

module _ {F : Type 0} (gt : F → F → Bool) where
  -- The rest of the loop of `argmax`, from index `i`; `top` is `logits[best]`.
  unfoldable pub argmax_from : ℕ → ℕ → F → List F → ℕ
  argmax_from i best top [] = best
  argmax_from i best top (v ∷ vs) =
      if gt v top then argmax_from (i + 1) i v vs else argmax_from (i + 1) best top vs

  unfoldable pub argmax : List F → ℕ
  argmax [] = 0
  argmax (v ∷ vs) = argmax_from 0 0 v (v ∷ vs) % 2 ^ 32

  -- `>` as a strict order on the numbers that are compared: no NaN among them.
  pub record IsOrder : Type 0 where
    pub irreflexive : (a : F) → gt a a ≡ false
    pub transitive : (a b c : F) → gt a b ≡ true → gt b c ≡ true → gt a c ≡ true
    pub compares : (a b c : F) → gt a c ≡ true → (gt a b ≡ true) ⊎ (gt b c ≡ true)

  -- The first of the greatest: above all before it, and below none after it.
  pub record IsFirstMax (xs : List F) (best : ℕ) (top : F) : Type 0 where
    pub left : List F
    pub right : List F
    pub split : xs ≡ left ++ (top ∷ right)
    pub index : best ≡ length left
    pub above : All (λ x. gt top x ≡ true) left
    pub not_below : All (λ x. gt x top ≡ false) right

  module _ {M T R P C : Type 0} (d : Model M (List F) T R P) (on_token : C → ℕ → C × Bool) where
    -- `generate`: the sampler is `argmax`, which keeps no state.
    unfoldable pub generate :
        StopConditions
        → ℕ
        → Link M
        → C
        → List ℕ
        → Ended SessionError (Turn (Link M) (Unit {0}) C (List F))
    generate stop fuel link caller prompt =
        generate_with d [] (λ u logits history. (u, argmax logits)) on_token stop fuel link tt
          caller prompt

  module _ (order : IsOrder) where
    above_next :
        (left right : List F) (top v : F)
        → gt v top ≡ true
        → All (λ x. gt top x ≡ true) left
        → All (λ x. gt x top ≡ false) right
        → All (λ x. gt v x ≡ true) (left ++ (top ∷ right))
    above_next left right top v more above not_below =
        All-append _ left (top ∷ right)
          (All-imp _ _ left (λ x h. order.transitive v top x more h) above)
          (
            more,
            All-imp _ _ right
                (λ x h. elim (order.compares v x top more) [
                  | inl wins ↦ wins
                  | inr beats ↦ absurd (false≢true (sym h ∙ beats))
                ])
                not_below,
          )

    IsFirstMax-more :
        (xs : List F) (best : ℕ) (top v : F)
        → IsFirstMax xs best top
        → gt v top ≡ true
        → IsFirstMax (xs ++ (v ∷ [])) (length xs) v
    IsFirstMax-more xs best top v h more = record {
      left = xs;
      right = [];
      split = refl;
      index = refl;
      above = rw h.split (above_next h.left h.right top v more h.above h.not_below);
      not_below = tt;
    }

    IsFirstMax-same :
        (xs : List F) (best : ℕ) (top v : F)
        → IsFirstMax xs best top
        → gt v top ≡ false
        → IsFirstMax (xs ++ (v ∷ [])) best top
    IsFirstMax-same xs best top v h less = record {
      left = h.left;
      right = h.right ++ (v ∷ []);
      split = rw h.split (append_assoc h.left (top ∷ h.right) (v ∷ []));
      index = h.index;
      above = h.above;
      not_below = All-append_one _ h.right v h.not_below less;
    }

    argmax_from-IsFirstMax :
        (xs : List F) (best : ℕ) (top : F) (vs : List F)
        → IsFirstMax xs best top
        → (winner : F) × IsFirstMax (xs ++ vs) (argmax_from (length xs) best top vs) winner
    unfolding argmax_from
    argmax_from-IsFirstMax xs best top [] h = (top, rw (append-nil xs) h)
    argmax_from-IsFirstMax xs best top (v ∷ vs) h =
        let next : length (xs ++ (v ∷ [])) ≡ length xs + 1 = length-append xs (v ∷ []) in
        rw (sym (append_assoc xs (v ∷ []) vs), sym next)
          (elim (Bool-cases (gt v top)) [
            | inl more ↦ rw more (
                argmax_from-IsFirstMax (xs ++ (v ∷ [])) (length xs) v vs
                  (IsFirstMax-more xs best top v h more))
            | inr less ↦ rw less (
                argmax_from-IsFirstMax (xs ++ (v ∷ [])) best top vs
                  (IsFirstMax-same xs best top v h less))
          ])

    -- Where `>` is a strict order on the logits, and there is at least one of them and at most 2 ^ 32,
    -- `argmax` is the index of the first greatest: one above all before it, and below none after it.
    pub argmax-IsFirstMax :
        (v : F) (vs : List F)
        → length (v ∷ vs) ≤ 2 ^ 32
        → (winner : F) × IsFirstMax (v ∷ vs) (argmax (v ∷ vs)) winner
    unfolding argmax argmax_from
    argmax-IsFirstMax v vs small =
        let (winner, h) = argmax_from-IsFirstMax (v ∷ []) 0 v vs (record {
          left = [];
          right = [];
          split = refl;
          index = refl;
          above = tt;
          not_below = tt;
        }) in
        let inside : length h.left + suc (length h.right) ≡ length (v ∷ vs) =
          sym (ap length h.split ∙ length-append h.left (winner ∷ h.right)) in
        let index : argmax_from 1 0 v vs ≡ length h.left = h.index in
        let best : ℕ = argmax_from 1 0 v vs in
        let same : best % 2 ^ 32 ≡ best = mod-eq_of_lt (omega (arith, inside, index, small)) in
        (winner, rw (order.irreflexive v) (rw same h))
