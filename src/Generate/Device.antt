-- ===== src/Generate/Device.antt =====
-- The device thread of session.rs. `Model` stands for `moe::Model` with its queue on the card, which
-- are not modelled: a record of what the thread calls. A failure is the text of its error.
use Prim.Native.String.{String}
use mo_earc.Common.{ℕ, Bool, Option, none, some}
use mo_earc.Common.Results.{Result, ok, err}

pub record Model (M L T R P : Type 0) : Type 0 where
  pub reset : M → M × Result String (Unit {0})
  pub decode : M → ℕ → M × Result String L
  -- `state.tap = tap.then(Tap::default)` and `state.tap.take()`.
  pub set_tap : M → Bool → M
  pub take_tap : M → M × Option T
  pub reset_cache_stats : M → M
  pub event_profile : M → M × Result String P
  pub reset_event_profile : M → M × Result String (Unit {0})
  pub clear_residency : M → M × Result String (Unit {0})
  pub residency : M → R

pub data Command : Type 0 where
  decode : ℕ → Bool → Command
  reset reset_cache_stats event_profile reset_event_profile clear_residency residency : Command
  shutdown : Command

pub data Reply (L T R P : Type 0) : Type 0 where
  logits : L → Option T → Reply L T R P
  residency : R → Reply L T R P
  event_profile : P → Reply L T R P
  done : Reply L T R P
  failed : String → Reply L T R P

-- The `Ready` of the start is sent before the loop, and never by it.

module _ {M L T R P : Type 0} (d : Model M L T R P) where
  -- `match … { Ok(()) => Reply::Done, Err(e) => Reply::Failed(…) }`
  unfoldable pub done_or_failed : M × Result String (Unit {0}) → M × Reply L T R P
  done_or_failed (m, ok u) = (m, Reply.done)
  done_or_failed (m, err e) = (m, Reply.failed e)

  unfoldable pub profile_or_failed : M × Result String P → M × Reply L T R P
  profile_or_failed (m, ok p) = (m, Reply.event_profile p)
  profile_or_failed (m, err e) = (m, Reply.failed e)

  unfoldable pub logits_or_failed : M × Result String L → M × Reply L T R P
  logits_or_failed (m, ok l) = let (m', tap) = d.take_tap m in (m', Reply.logits l tap)
  logits_or_failed (m, err e) = (m, Reply.failed e)

  -- One round of the loop of `worker`; `none` is the return on `Shutdown`.
  unfoldable pub serve : M → Command → Option (M × Reply L T R P)
  serve m Command.shutdown = none
  serve m Command.reset = some (done_or_failed (d.reset m))
  serve m Command.reset_cache_stats = some (d.reset_cache_stats m, Reply.done)
  serve m Command.event_profile = some (profile_or_failed (d.event_profile m))
  serve m Command.reset_event_profile = some (done_or_failed (d.reset_event_profile m))
  serve m Command.clear_residency = some (done_or_failed (d.clear_residency m))
  serve m Command.residency = some (m, Reply.residency (d.residency m))
  serve m (Command.decode token tap) = some (logits_or_failed (d.decode (d.set_tap m tap) token))
