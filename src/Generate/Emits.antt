-- ===== src/Generate/Emits.antt =====
-- What a generation has done when it returns: which tokens the caller saw, and which of them the model
-- was given back.
use mathlib.Core.List.{append_assoc, append-nil}
use mo_earc.Common.{
  ℕ, zero, suc, ◌+◌, ◌≤◌, ◌<◌, ◌≡◌, inl, inr, refl, sym, ap, ◌∙◌, arith, false, Bool-cases, leb,
  List, [], ◌∷◌, ◌++◌, length, All, contains, nat_eq, leb→le,
}
use mo_earc.Common.Results.{ok, err, Result-cases}
use mo_earc.Generate.Types.{StopReason, StopConditions}
use mo_earc.Generate.Drive.{
  Closures, Turn, Ended, returned, failed, out_of_fuel, stopped, accept, loop,
}

-- A property of the state that is returned; the loop is not cut off.
unfoldable pub Returns : {E T : Type 0} → (T → Type 0) → Ended E T → Type 0
Returns P (returned t) = P t
Returns P (failed e) = Unit
Returns P out_of_fuel = ⊥

pub Returns-imp :
    {E T : Type 0} {P Q : T → Type 0} (r : Ended E T)
    → ((x : T) → P x → Q x)
    → Returns P r
    → Returns Q r
unfolding Returns
Returns-imp (returned t) imp h = imp t h
Returns-imp (failed e) imp h = tt
Returns-imp out_of_fuel imp h = absurd h

-- A property of the state that is returned, or of the failure; the loop is not cut off.
unfoldable pub Ends : {E T : Type 0} → (T → Type 0) → (E → Type 0) → Ended E T → Type 0
Ends P F (returned t) = P t
Ends P F (failed e) = F e
Ends P F out_of_fuel = ⊥

pub Ends-imp :
    {E T : Type 0} {P Q : T → Type 0} {F G : E → Type 0} (r : Ended E T)
    → ((x : T) → P x → Q x)
    → ((e : E) → F e → G e)
    → Ends P F r
    → Ends Q G r
unfolding Ends
Ends-imp (returned t) imp fails h = imp t h
Ends-imp (failed e) imp fails h = fails e h
Ends-imp out_of_fuel imp fails h = absurd h

pub Ends-Returns :
    {E T : Type 0} (P : T → Type 0) (F : E → Type 0) (r : Ended E T) → Ends P F r → Returns P r
unfolding Ends Returns
Ends-Returns P F (returned t) h = h
Ends-Returns P F (failed e) h = tt
Ends-Returns P F out_of_fuel h = absurd h

module _ {E A S C L : Type 0} (f : Closures E A S C L) (stop : StopConditions) where
  -- The caller's state after these tokens.
  unfoldable pub tell : C → List ℕ → C
  tell c [] = c
  tell c (t ∷ ts) = tell (f.on_token c t).0 ts

  -- The model is given these tokens, one at a time, without a failure.
  unfoldable pub Feeds : A → List ℕ → A → Type 0
  Feeds a [] b = a ≡ b
  Feeds a (t ∷ ts) b = (a' : A) × (l : L) × (f.advance a (t ∷ []) ≡ ok (a', l)) × Feeds a' ts b

  -- `advance` fails on one more token, after the model was given some.
  unfoldable pub Breaks : A → E → Type 0
  Breaks a e = (fed : List ℕ) × (b : A) × (x : ℕ) × Feeds a fed b × (f.advance b (x ∷ []) ≡ err e)

  -- The last token is given back to the model only where the sampler then asked to stop.
  unfoldable pub IsEnd : StopReason → ℕ → List ℕ → List ℕ → Type 0
  IsEnd StopReason.end_of_turn n emitted fed = emitted ≡ fed
  IsEnd StopReason.length n emitted fed =
      (n ≡ stop.max_tokens) × ((t : ℕ) × (emitted ≡ fed ++ (t ∷ [])))
  IsEnd StopReason.cancelled n emitted fed = (t : ℕ) × (emitted ≡ fed ++ (t ∷ []))

  pub record IsRun (t u : Turn A S C L) : Type 0 where
    pub emitted : List ℕ
    pub fed : List ℕ
    pub history : u.history ≡ t.history ++ emitted
    pub caller : u.caller ≡ tell t.caller emitted
    pub engine : Feeds t.engine fed u.engine
    pub prompt : u.stats.prompt_tokens ≡ t.stats.prompt_tokens
    pub counted : u.stats.completion_tokens ≡ t.stats.completion_tokens + length emitted
    pub bounded : u.stats.completion_tokens ≤ stop.max_tokens
    pub clean : All (λ x. contains stop.stop_tokens x ≡ false) emitted
    pub ended : IsEnd u.stats.stop_reason u.stats.completion_tokens emitted fed

  -- One more token in front.
  IsEnd-cons :
      (r : StopReason) (n x : ℕ) (emitted fed : List ℕ)
      → IsEnd r n emitted fed
      → IsEnd r n (x ∷ emitted) (x ∷ fed)
  unfolding IsEnd
  IsEnd-cons StopReason.end_of_turn n x emitted fed e = ap (◌∷◌ x) e
  IsEnd-cons StopReason.length n x emitted fed (full, last) = (full, (last.0, ap (◌∷◌ x) last.1))
  IsEnd-cons StopReason.cancelled n x emitted fed (t, e) = (t, ap (◌∷◌ x) e)

  completion-accept :
      (t : Turn A S C L) (s : S) (x : ℕ)
      → (accept f stop t s x).0.stats.completion_tokens ≡ t.stats.completion_tokens + 1
  unfolding accept
  completion-accept t s x = refl

  IsRun-more :
      (t u : Turn A S C L) (s : S) (x : ℕ) (a : A) (l : L)
      → contains stop.stop_tokens x ≡ false
      → f.advance t.engine (x ∷ []) ≡ ok (a, l)
      → IsRun (record ((accept f stop t s x).0) { engine = a; logits = l }) u
      → IsRun t u
  unfolding accept tell Feeds
  IsRun-more t u s x a l ordinary fed_back r = record {
    emitted = x ∷ r.emitted;
    fed = x ∷ r.fed;
    history = r.history ∙ append_assoc t.history (x ∷ []) r.emitted;
    caller = r.caller;
    engine = (a, l, fed_back, r.engine);
    prompt = r.prompt;
    counted = omega (arith, r.counted);
    bounded = r.bounded;
    clean = (ordinary, r.clean);
    ended = IsEnd-cons _ _ x r.emitted r.fed r.ended;
  }

  -- The caller has the last token, and the model has not.
  IsRun-last :
      (t : Turn A S C L) (s : S) (x : ℕ) (reason : StopReason)
      → contains stop.stop_tokens x ≡ false
      → t.stats.completion_tokens < stop.max_tokens
      → IsEnd reason (t.stats.completion_tokens + 1) (x ∷ []) []
      → IsRun t (stopped f stop (accept f stop t s x).0 reason)
  unfolding accept tell Feeds
  IsRun-last t s x reason ordinary below ended = record {
    emitted = x ∷ [];
    fed = [];
    history = refl;
    caller = refl;
    engine = refl;
    prompt = refl;
    counted = refl;
    bounded = omega arith;
    clean = (ordinary, tt);
    ended = ended;
  }

  IsRun-none :
      (t : Turn A S C L) (s : S)
      → t.stats.completion_tokens < stop.max_tokens
      → IsRun t (stopped f stop (record t { sampler = s }) StopReason.end_of_turn)
  unfolding tell Feeds IsEnd
  IsRun-none t s below = record {
    emitted = [];
    fed = [];
    history = sym (append-nil t.history);
    caller = refl;
    engine = refl;
    prompt = refl;
    counted = omega arith;
    bounded = omega arith;
    clean = tt;
    ended = refl;
  }

  Breaks-nil :
      (t : Turn A S C L) (e : E) (x : ℕ) → f.advance t.engine (x ∷ []) ≡ err e → Breaks t.engine e
  unfolding Breaks Feeds
  Breaks-nil t e x broke = ([], t.engine, x, refl, broke)

  Breaks-more :
      (a b : A) (x : ℕ) (l : L) (e : E) → f.advance a (x ∷ []) ≡ ok (b, l) → Breaks b e → Breaks a e
  unfolding Breaks Feeds
  Breaks-more a b x l e went (fed, c, y, feeds, broke) = (x ∷ fed, c, y, (b, l, went, feeds), broke)

  -- With one round of fuel for each token that may still be generated, the loop is not cut off.
  pub loop-Ends :
      (fuel : ℕ) (t : Turn A S C L)
      → t.stats.completion_tokens < stop.max_tokens
      → stop.max_tokens ≤ t.stats.completion_tokens + fuel
      → Ends (IsRun t) (Breaks t.engine) (loop f stop fuel t)
  unfolding loop Ends accept
  loop-Ends zero t below enough = absurd (omega arith)
  loop-Ends (suc fuel) t below enough =
      let s : S = (f.sample t.sampler t.logits t.history).0 in
      let x : ℕ = (f.sample t.sampler t.logits t.history).1 in
      let t' : Turn A S C L = (accept f stop t s x).0 in
      elim (Bool-cases (contains stop.stop_tokens x)) [
        | inl stops ↦ rw (stops, Ends, loop) (IsRun-none t s below)
        | inr ordinary ↦ elim (Bool-cases (accept f stop t s x).1) [
          | inr enough_said ↦
              rw (ordinary, Ends, loop)
                (rw enough_said (
                  IsRun-last t s x StopReason.cancelled ordinary below (unfold IsEnd in (x, refl))))
          | inl more ↦ elim (Bool-cases (leb stop.max_tokens t'.stats.completion_tokens)) [
            | inl full ↦
                let at_limit : t.stats.completion_tokens + 1 ≡ stop.max_tokens =
                  omega (arith, leb→le _ _ full, completion-accept t s x, below) in
                rw (ordinary, Ends, loop)
                  (rw more (
                    rw full (
                      IsRun-last t s x StopReason.length ordinary below
                        (unfold IsEnd in (at_limit, (x, refl))))))
            | inr room ↦ elim (Result-cases (f.advance t'.engine (x ∷ []))) [
              | inl (e, broke) ↦
                  rw (ordinary, Ends, loop) (rw more (rw room (rw broke (Breaks-nil t' e x broke))))
              | inr ((a, l), went) ↦
                  let short : t'.stats.completion_tokens < stop.max_tokens = ground (arith) in
                  rw (ordinary, Ends, loop)
                    (rw more (
                      rw room (
                        rw went (
                          Ends-imp (loop f stop fuel (record t' { engine = a; logits = l }))
                            (λ u r. IsRun-more t u s x a l ordinary went r)
                            (λ e k. Breaks-more t.engine a x l e went k)
                            (loop-Ends fuel (record t' { engine = a; logits = l }) short
                              (omega (arith, enough, completion-accept t s x)))))))
            ]
          ]
        ]
      ]

  pub loop-IsRun :
      (fuel : ℕ) (t : Turn A S C L)
      → t.stats.completion_tokens < stop.max_tokens
      → stop.max_tokens ≤ t.stats.completion_tokens + fuel
      → Returns (IsRun t) (loop f stop fuel t)
  loop-IsRun fuel t below enough =
      Ends-Returns (IsRun t) (Breaks t.engine) (loop f stop fuel t) (loop-Ends fuel t below enough)
