-- ===== src/Generate/Drive.antt =====
-- `drive` of generate.rs. The model behind `advance`, the sampler with its random numbers, and the
-- caller's `on_token` are parameters; each threads a state of its own, and `advance` may fail.
use mo_earc.Common.{
  ℕ, zero, suc, ◌+◌, Bool, true, false, leb, ◌==◌, if◌then◌else◌, List, [], ◌∷◌, ◌++◌, length,
  contains, nat_eq,
}
use mo_earc.Common.Results.{Result, ok, err}
use mo_earc.Generate.Types.{StopReason, GenerationStats, StopConditions}

-- The closures of a generation. `E` is the type of errors.
pub record Closures (E A S C L : Type 0) : Type 0 where
  pub advance : A → List ℕ → Result E (A × L)
  pub sample : S → L → List ℕ → S × ℕ
  pub on_token : C → ℕ → C × Bool
  pub empty_prompt : E

-- The variables of the loop.
pub record Turn (A S C L : Type 0) : Type 0 where
  pub engine : A
  pub sampler : S
  pub caller : C
  pub logits : L
  pub history : List ℕ
  pub stats : GenerationStats

-- How a loop ends: it returns, fails in `advance`, or is cut off by the fuel of the model.
pub data Ended (E T : Type 0) : Type 0 where
  returned : T → Ended E T
  failed : E → Ended E T
  out_of_fuel : Ended E T

module _ {E A S C L : Type 0} (f : Closures E A S C L) (stop : StopConditions) where
  -- `Ok(stats)` with this reason.
  abbrev pub stopped : Turn A S C L → StopReason → Turn A S C L
  stopped t reason = record t { stats = record (t.stats) { stop_reason = reason } }

  -- The sampled token is pushed and counted, and the caller is told.
  unfoldable pub accept : Turn A S C L → S → ℕ → Turn A S C L × Bool
  accept t sampler token =
      let (caller, more) = f.on_token t.caller token in
      (
        record t {
          sampler = sampler;
          caller = caller;
          history = t.history ++ (token ∷ []);
          stats = record (t.stats) { completion_tokens = t.stats.completion_tokens + 1 };
        },
        more,
      )

  unfoldable pub loop : ℕ → Turn A S C L → Ended E (Turn A S C L)
  loop zero t = out_of_fuel
  loop (suc fuel) t =
      let (sampler, token) = f.sample t.sampler t.logits t.history in
      elim (contains stop.stop_tokens token) [
        | true ↦ returned (stopped (record t { sampler = sampler }) StopReason.end_of_turn)
        | false ↦
            let (t', more) = accept t sampler token in
            elim more [
              | false ↦ returned (stopped t' StopReason.cancelled)
              | true ↦ elim (leb stop.max_tokens t'.stats.completion_tokens) [
                | true ↦ returned (stopped t' StopReason.length)
                | false ↦ elim (f.advance t'.engine (token ∷ [])) [
                  | err e ↦ failed e
                  | ok (engine, logits) ↦ loop fuel (record t' { engine = engine; logits = logits })
                ]
              ]
            ]
      ]

  -- `drive`: the whole prompt is processed first, also where no token is wanted.
  unfoldable pub drive : ℕ → A → S → C → List ℕ → Ended E (Turn A S C L)
  drive fuel engine sampler caller prompt =
      if length prompt == 0 then failed f.empty_prompt else elim (f.advance engine prompt) [
        | err e ↦ failed e
        | ok (engine', logits) ↦
            let t : Turn A S C L = record {
              engine = engine';
              sampler = sampler;
              caller = caller;
              logits = logits;
              history = prompt;
              stats = record {
                prompt_tokens = length prompt;
                completion_tokens = 0;
                stop_reason = StopReason.length;
              };
            } in
            if stop.max_tokens == 0 then returned t else loop fuel t
      ]
