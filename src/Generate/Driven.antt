-- ===== src/Generate/Driven.antt =====
-- What `drive` has done when it returns.
use mo_earc.Common.{
  ℕ, ◌≤◌, ◌<◌, ◌≡◌, ◌⊎◌, inl, inr, refl, arith, Bool-cases, false, ◌==◌, List, length,
}
use mo_earc.Common.Results.{ok, err, Result-cases}
use mo_earc.Generate.Types.{StopReason, StopConditions}
use mo_earc.Generate.Drive.{Closures, Turn, loop, drive}
use mo_earc.Generate.Emits.{Ends, Ends-imp, Breaks, IsRun, loop-Ends}

module _ {E A S C L : Type 0} (f : Closures E A S C L) (stop : StopConditions) where
  -- The variables before the loop.
  abbrev pub first_turn : A → S → C → L → List ℕ → Turn A S C L
  first_turn engine sampler caller logits prompt = record {
    engine = engine;
    sampler = sampler;
    caller = caller;
    logits = logits;
    history = prompt;
    stats = record {
      prompt_tokens = length prompt;
      completion_tokens = 0;
      stop_reason = StopReason.length;
    };
  }

  -- A generation that has returned: there was a prompt, the model was given the prompt first, and then the run.
  pub record IsDriven (engine : A) (sampler : S) (caller : C) (prompt : List ℕ) (u : Turn A S C L)
      : Type 0 where
    pub prompted : 0 < length prompt
    pub ready : A
    pub logits : L
    pub prompt_fed : f.advance engine prompt ≡ ok (ready, logits)
    pub rest :
        ((stop.max_tokens ≡ 0) × (u ≡ first_turn ready sampler caller logits prompt))
        ⊎ IsRun f stop (first_turn ready sampler caller logits prompt) u

  -- A failure: an empty prompt is refused, `advance` fails on the prompt, or, after the prompt and some
  -- tokens, on the next one.
  unfoldable pub Undriven : A → List ℕ → E → Type 0
  Undriven engine prompt e =
      ((length prompt ≡ 0) × (e ≡ f.empty_prompt))
      ⊎ ((0 < length prompt)
          × ((f.advance engine prompt ≡ err e)
              ⊎ ((ready : A) × (l : L) × (f.advance engine prompt ≡ ok (ready, l))
                  × Breaks f stop ready e)))

  -- With as many rounds as tokens are wanted, `drive` ends: it fails or it returns. It fails with the
  -- error for an empty prompt where the prompt is empty, and otherwise with an error of `advance`, on
  -- the prompt or, after the prompt and some tokens one by one, on the next token. Where it returns,
  -- the prompt is not empty, the model was given it, and the tokens that the caller saw one by one but
  -- for the last, which it is given only where the sampler then stopped; the caller saw every token
  -- that is counted, no stop token among them, and at most `max_tokens`; and the reason that is
  -- reported is `Length` only at exactly `max_tokens`.
  pub drive-IsDriven :
      (fuel : ℕ) (engine : A) (sampler : S) (caller : C) (prompt : List ℕ)
      → stop.max_tokens ≤ fuel
      → Ends
          (IsDriven engine sampler caller prompt)
          (Undriven engine prompt)
          (drive f stop fuel engine sampler caller prompt)
  unfolding drive Ends Undriven
  drive-IsDriven fuel engine sampler caller prompt enough = elim (Bool-cases (length prompt == 0)) [
    | inl empty ↦ rw (empty, Ends, drive) (inl (ground arith, refl))
    | inr tokens ↦ elim (Result-cases (f.advance engine prompt)) [
      | inl (e, broke) ↦ rw (tokens, Ends, drive) (rw broke (inr (some_tokens tokens, inl broke)))
      | inr ((a, l), went) ↦ elim (Bool-cases (stop.max_tokens == 0)) [
        | inl nothing ↦
            rw (tokens, Ends, drive)
              (rw went (
                rw nothing (record {
                  prompted = some_tokens tokens;
                  ready = a;
                  logits = l;
                  prompt_fed = went;
                  rest = inl (ground arith, refl);
                })))
        | inr wanted ↦
            let start = first_turn a sampler caller l prompt in
            rw (tokens, Ends, drive)
              (rw went (
                rw wanted (
                  Ends-imp (loop f stop fuel start)
                    (λ u r. record {
                      prompted = some_tokens tokens;
                      ready = a;
                      logits = l;
                      prompt_fed = went;
                      rest = inr r;
                    })
                    (λ e k. inr (some_tokens tokens, inr (a, l, went, k)))
                    (loop-Ends f stop fuel start (ground arith) (omega arith)))))
      ]
    ]
  ]
    where
      some_tokens : (length prompt == 0) ≡ false → 0 < length prompt
      some_tokens tokens = ground arith
