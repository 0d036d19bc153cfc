-- ===== src/Generate/Session.antt =====
-- `Session` of session.rs. Its two channels carry one command and one reply at a time, under a lock, so
-- that a command and its reply are one exchange with the device thread.
use Prim.Native.String.{String}
use mo_earc.Common.{
  ℕ, Bool, true, false, ◌==◌, if◌then◌else◌, Option, none, some, List, [], ◌∷◌, length,
}
use mo_earc.Common.Results.{Result, ok, err, ◌>>=◌}
use mo_earc.Generate.Types.{StopReason, StopConditions}
use mo_earc.Generate.Drive.{Closures, Turn, Ended, returned, failed, loop}
use mo_earc.Generate.Device.{Model, Command, Reply, serve}

-- `EngineError::Unsupported` with its text: the constant ones by name, or the device thread's.
pub data SessionError : Type 0 where
  empty_prompt gone unexpected no_tap : SessionError
  from_device : String → SessionError

-- The thread, with the model it owns; `none` once it has ended.
pub record Link (M : Type 0) : Type 0 where
  pub thread : Option M

module _ {M L T R P : Type 0} (d : Model M L T R P) where
  -- `send`, and the `recv` of the reply.
  unfoldable pub exchange : Link M → Command → Result SessionError (Link M × Reply L T R P)
  exchange link command = elim link.thread [
    | none ↦ err gone
    | some m ↦ elim (serve d m command) [
      | none ↦ err gone
      | some (m', reply) ↦ ok (record { thread = some m' }, reply)
    ]
  ]

  unfoldable pub done_of : Reply L T R P → Result SessionError (Unit {0})
  done_of Reply.done = ok tt
  done_of (Reply.failed m) = err (from_device m)
  done_of other = err unexpected

  unfoldable pub logits_of : Reply L T R P → Result SessionError (L × Option T)
  logits_of (Reply.logits l tap) = ok (l, tap)
  logits_of (Reply.failed m) = err (from_device m)
  logits_of other = err unexpected

  unfoldable pub residency_of : Reply L T R P → Result SessionError R
  residency_of (Reply.residency r) = ok r
  residency_of (Reply.failed m) = err (from_device m)
  residency_of other = err unexpected

  unfoldable pub profile_of : Reply L T R P → Result SessionError P
  profile_of (Reply.event_profile p) = ok p
  profile_of (Reply.failed m) = err (from_device m)
  profile_of other = err unexpected

  -- A command, and what its reply is expected to be.
  unfoldable pub ask :
      {X : Type 0}
      → (Reply L T R P → Result SessionError X)
      → Link M
      → Command
      → Result SessionError (Link M × X)
  ask expected link command = do
    (link', reply) ← exchange link command
    x ← expected reply
    ok (link', x)

  unfoldable pub session_residency : Link M → Result SessionError (Link M × R)
  session_residency link = ask residency_of link Command.residency

  unfoldable pub session_event_profile : Link M → Result SessionError (Link M × P)
  session_event_profile link = ask profile_of link Command.event_profile

  unfoldable pub session_reset_event_profile : Link M → Result SessionError (Link M × Unit {0})
  session_reset_event_profile link = ask done_of link Command.reset_event_profile

  unfoldable pub session_reset_cache_stats : Link M → Result SessionError (Link M × Unit {0})
  session_reset_cache_stats link = ask done_of link Command.reset_cache_stats

  unfoldable pub session_clear_residency : Link M → Result SessionError (Link M × Unit {0})
  session_clear_residency link = ask done_of link Command.clear_residency

  -- The loop of `run` over the tokens, after the first: only the last is tapped.
  unfoldable pub run_tokens :
      Bool → ℕ → List ℕ → Link M → Result SessionError (Link M × (L × Option T))
  run_tokens tap t [] link = ask logits_of link (Command.decode t tap)
  run_tokens tap t (t' ∷ ts) link = do
    (link', reply) ← ask logits_of link (Command.decode t false)
    run_tokens tap t' ts link'

  unfoldable pub run : Link M → List ℕ → Bool → Result SessionError (Link M × (L × Option T))
  run link [] tap = err empty_prompt
  run link (t ∷ ts) tap = do (link', u) ← ask done_of link Command.reset; run_tokens tap t ts link'

  unfoldable pub session_logits : Link M → List ℕ → Result SessionError (Link M × L)
  session_logits link tokens = do (link', out) ← run link tokens false; ok (link', out.0)

  unfoldable pub tapped : Link M × (L × Option T) → Result SessionError (Link M × (L × T))
  tapped (link, (l, none)) = err no_tap
  tapped (link, (l, some tap)) = ok (link, (l, tap))

  unfoldable pub logits_tapped : Link M → List ℕ → Result SessionError (Link M × (L × T))
  logits_tapped link tokens = run link tokens true >>= tapped

  -- `Command::Decode` of one token, untapped, and its logits.
  unfoldable pub feed_one : Link M → ℕ → Result SessionError (Link M × L)
  feed_one link t = do (link', out) ← ask logits_of link (Command.decode t false); ok (link', out.0)

  -- `for t in prompt_tokens { … }`; `logits` are those of the last token.
  unfoldable pub feed : L → Link M → List ℕ → Result SessionError (Link M × L)
  feed logits link [] = ok (link, logits)
  feed logits link (t ∷ ts) = do (link', logits') ← feed_one link t; feed logits' link' ts

  module _ {S C : Type 0} (no_logits : L) (sample : S → L → List ℕ → S × ℕ)
      (on_token : C → ℕ → C × Bool) where
    -- The loop of `generate_with` is that of `drive`, with the device thread behind it.
    abbrev pub session_closures : Closures SessionError (Link M) S C L
    session_closures = record {
      advance = feed no_logits;
      sample = sample;
      on_token = on_token;
      empty_prompt = empty_prompt;
    }

    unfoldable pub generate_with :
        StopConditions → ℕ → Link M → S → C → List ℕ → Ended SessionError (Turn (Link M) S C L)
    generate_with stop fuel link sampler caller prompt =
        if length prompt == 0 then failed empty_prompt else elim (ask done_of link Command.reset) [
          | err e ↦ failed e
          | ok (link', u) ↦ elim (feed no_logits link' prompt) [
            | err e ↦ failed e
            | ok (link'', logits) ↦
                let t : Turn (Link M) S C L = record {
                  engine = link'';
                  sampler = sampler;
                  caller = caller;
                  logits = logits;
                  history = prompt;
                  stats = record {
                    prompt_tokens = length prompt;
                    completion_tokens = 0;
                    stop_reason = StopReason.length;
                  };
                } in
                if stop.max_tokens == 0 then returned t else loop session_closures stop fuel t
          ]
        ]
