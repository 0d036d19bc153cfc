-- ===== src/Generate/Tracked.antt =====
-- What the device has in its cache after a prompt or a generation: the tokens it was given, from the
-- empty cache on. The model of the device is any that tracks its tokens.
use mathlib.Core.Path.{subst}
use mathlib.Core.List.{append_assoc, append-nil}
use Prim.Native.String.{String}
use mo_earc.Common.{
  ℕ, ◌≤◌, arith, ◌≡◌, ◌⊎◌, inl, inr, refl, sym, ap, ◌∙◌, Bool, false, Option, some, List, [], ◌∷◌,
  ◌++◌, length, ◌==◌, Bool-cases,
}
use mo_earc.Common.Results.{Result, ok, err, ◌>>=◌, Result-cases}
use mo_earc.Generate.Types.{StopReason, StopConditions}
use mo_earc.Generate.Drive.{Turn, loop}
use mo_earc.Generate.Emits.{Returns, Returns-imp, Feeds, IsRun, IsEnd, tell, loop-IsRun}
use mo_earc.Generate.Driven.{first_turn}
use mo_earc.Generate.Device.{Model, Command, done_or_failed, logits_or_failed, serve}
use mo_earc.Generate.Session.{
  SessionError, from_device, Link, exchange, done_of, logits_of, ask, run_tokens, run, feed_one,
  feed, session_closures, generate_with,
}

module _ {M L T R P : Type 0} (d : Model M L T R P) where
  -- The device's tokens: emptied by a reset, longer by one after a decode, and kept by the taps.
  pub record IsTracking (cached : M → List ℕ) : Type 0 where
    pub on_reset : (m : M) → cached (d.reset m).0 ≡ []
    pub on_decode :
        (m : M) (t : ℕ) {l : L}
        → (d.decode m t).1 ≡ ok l
        → cached (d.decode m t).0 ≡ cached m ++ (t ∷ [])
    pub on_set_tap : (m : M) (tap : Bool) → cached (d.set_tap m tap) ≡ cached m
    pub on_take_tap : (m : M) → cached (d.take_tap m).0 ≡ cached m

  -- The thread is alive, and has these tokens in its cache.
  abbrev pub Holds : (M → List ℕ) → List ℕ → Link M → Type 0
  Holds cached ts link = (m : M) × (link.thread ≡ some m) × (cached m ≡ ts)

  -- The link that is returned has `P`; an error is one the device thread reported.
  unfoldable pub Settles : {X : Type 0} → (X → Type 0) → Result SessionError X → Type 0
  Settles Q (ok x) = Q x
  Settles Q (err e) = (s : String) × (e ≡ from_device s)

  Settles->>= :
      {X Y : Type 0} (Q : X → Type 0) (Q' : Y → Type 0) (r : Result SessionError X)
      (rest : X → Result SessionError Y)
      → Settles Q r
      → ((x : X) → Q x → Settles Q' (rest x))
      → Settles Q' (r >>= rest)
  unfolding Settles
  Settles->>= Q Q' (ok x) rest h more = more x h
  Settles->>= Q Q' (err e) rest h more = h

  Settles-ok :
      {X : Type 0} (Q : X → Type 0) (r : Result SessionError X) {x : X}
      → Settles Q r
      → r ≡ ok x
      → Q x
  unfolding Settles
  Settles-ok Q r h e = subst (Settles Q) e h

  module _ {cached : M → List ℕ} (tracking : IsTracking cached) where
    done-Settles :
        (p : M × Result String (Unit {0})) (ts : List ℕ)
        → cached p.0 ≡ ts
        → Settles
            (λ (x : Link M × Unit {0}). Holds cached ts x.0)
            (done_of d (done_or_failed d p).1 >>= λ u.
              ok (record { thread = some (done_or_failed d p).0 }, u))
    unfolding done_or_failed done_of Settles
    done-Settles (m, ok u) ts h = (m, refl, h)
    done-Settles (m, err e) ts h = (e, refl)

    logits-Settles :
        (p : M × Result String L) (ts : List ℕ)
        → ((l : L) → p.1 ≡ ok l → cached p.0 ≡ ts)
        → Settles
            (λ (x : Link M × (L × Option T)). Holds cached ts x.0)
            (logits_of d (logits_or_failed d p).1 >>= λ u.
              ok (record { thread = some (logits_or_failed d p).0 }, u))
    unfolding logits_or_failed logits_of Settles
    logits-Settles (m, ok l) ts h = ((d.take_tap m).0, refl, tracking.on_take_tap m ∙ h l refl)
    logits-Settles (m, err e) ts h = (e, refl)

    reset-Settles :
        (link : Link M) (ts : List ℕ)
        → Holds cached ts link
        → Settles (λ x. Holds cached [] x.0) (ask d (done_of d) link Command.reset)
    unfolding ask exchange serve Settles
    reset-Settles link ts (m, alive, h) =
        rw (alive, Settles, ask) (done-Settles (d.reset m) [] (tracking.on_reset m))

    decode-Settles :
        (link : Link M) (ts : List ℕ) (t : ℕ) (tap : Bool)
        → Holds cached ts link
        → Settles
            (λ x. Holds cached (ts ++ (t ∷ [])) x.0)
            (ask d (logits_of d) link (Command.decode t tap))
    unfolding ask exchange serve Settles
    decode-Settles link ts t tap (m, alive, h) =
        rw (alive, Settles, ask)
          (logits-Settles (d.decode (d.set_tap m tap) t) (ts ++ (t ∷ [])) (λ l e.
            tracking.on_decode (d.set_tap m tap) t e
            ∙ ap (λ us. us ++ (t ∷ [])) (tracking.on_set_tap m tap ∙ h)))

    feed_one-Settles :
        (link : Link M) (ts : List ℕ) (t : ℕ)
        → Holds cached ts link
        → Settles (λ x. Holds cached (ts ++ (t ∷ [])) x.0) (feed_one d link t)
    unfolding feed_one Settles
    feed_one-Settles link ts t h =
        Settles->>= (λ x. Holds cached (ts ++ (t ∷ [])) x.0)
          (λ x. Holds cached (ts ++ (t ∷ [])) x.0) _ _ (decode-Settles link ts t false h)
          (λ x held. held)

    feed-Settles :
        (logits : L) (link : Link M) (before ts : List ℕ)
        → Holds cached before link
        → Settles (λ x. Holds cached (before ++ ts) x.0) (feed d logits link ts)
    unfolding feed Settles
    feed-Settles logits link before [] (m, alive, h) = (m, alive, h ∙ sym (append-nil before))
    feed-Settles logits link before (t ∷ ts) h =
        Settles->>= (λ x. Holds cached (before ++ (t ∷ [])) x.0) _ (feed_one d link t) _
          (feed_one-Settles link before t h)
          (λ x held.
            rw (sym (append_assoc before (t ∷ []) ts))
              (feed-Settles x.1 x.0 (before ++ (t ∷ [])) ts held))

    run_tokens-Settles :
        (tap : Bool) (link : Link M) (before : List ℕ) (t : ℕ) (ts : List ℕ)
        → Holds cached before link
        → Settles (λ x. Holds cached (before ++ (t ∷ ts)) x.0) (run_tokens d tap t ts link)
    unfolding run_tokens
    run_tokens-Settles tap link before t [] h = decode-Settles link before t tap h
    run_tokens-Settles tap link before t (t' ∷ ts) h =
        Settles->>= (λ x. Holds cached (before ++ (t ∷ [])) x.0) _ _ _
          (decode-Settles link before t false h)
          (λ x held.
            rw (sym (append_assoc before (t ∷ []) (t' ∷ ts)))
              (run_tokens-Settles tap x.0 (before ++ (t ∷ [])) t' ts held))

    module _ {S C : Type 0} (no_logits : L) (sample : S → L → List ℕ → S × ℕ)
        (on_token : C → ℕ → C × Bool) (stop : StopConditions) where
      Feeds-Holds :
          (link link' : Link M) (before fed : List ℕ)
          → Feeds (session_closures d no_logits sample on_token) stop link fed link'
          → Holds cached before link
          → Holds cached (before ++ fed) link'
      unfolding Feeds
      Feeds-Holds link link' before [] same h =
          subst (Holds cached (before ++ [])) same (rw (append-nil before) h)
      Feeds-Holds link link' before (t ∷ ts) (next, l, e, rest) h =
          let held : Holds cached (before ++ (t ∷ [])) next =
            Settles-ok (λ (x : Link M × L). Holds cached (before ++ (t ∷ [])) x.0) _
              (feed-Settles no_logits link before (t ∷ []) h) e in
          rw (sym (append_assoc before (t ∷ []) ts))
            (Feeds-Holds next link' (before ++ (t ∷ [])) ts rest held)

      -- A generation that has returned. The device holds the prompt and the tokens it was given back:
      -- those that the caller saw, or all of these but the last.
      pub record IsServed (caller : C) (prompt : List ℕ) (u : Turn (Link M) S C L) : Type 0 where
        pub emitted : List ℕ
        pub fed : List ℕ
        pub device : Holds cached (prompt ++ fed) u.engine
        pub history : u.history ≡ prompt ++ emitted
        pub seen :
            u.caller ≡ tell (session_closures d no_logits sample on_token) stop caller emitted
        pub behind : (emitted ≡ fed) ⊎ ((t : ℕ) × (emitted ≡ fed ++ (t ∷ [])))
        pub counted : u.stats.completion_tokens ≡ length emitted
        pub bounded : u.stats.completion_tokens ≤ stop.max_tokens

      IsEnd-behind :
          (r : StopReason) (n : ℕ) (emitted fed : List ℕ)
          → IsEnd (session_closures d no_logits sample on_token) stop r n emitted fed
          → (emitted ≡ fed) ⊎ ((t : ℕ) × (emitted ≡ fed ++ (t ∷ [])))
      unfolding IsEnd
      IsEnd-behind StopReason.end_of_turn n emitted fed e = inl e
      IsEnd-behind StopReason.length n emitted fed (full, last) = inr last
      IsEnd-behind StopReason.cancelled n emitted fed last = inr last

      IsRun-IsServed :
          (link : Link M) (sampler : S) (caller : C) (l : L) (prompt : List ℕ)
          (u : Turn (Link M) S C L)
          → Holds cached prompt link
          → IsRun
              (session_closures d no_logits sample on_token)
              stop
              (first_turn
                (session_closures d no_logits sample on_token)
                stop
                link
                sampler
                caller
                l
                prompt)
              u
          → IsServed caller prompt u
      IsRun-IsServed link sampler caller l prompt u h r = record {
        emitted = r.emitted;
        fed = r.fed;
        device = Feeds-Holds link u.engine prompt r.fed r.engine h;
        history = r.history;
        seen = r.caller;
        behind = IsEnd-behind u.stats.stop_reason u.stats.completion_tokens r.emitted r.fed r.ended;
        counted = omega (arith, r.counted);
        bounded = r.bounded;
      }

      -- On a device that tracks its tokens, with a live thread and a round for each token that is
      -- wanted, `generate_with` ends: it fails, or it returns. Then the thread is alive, and its cache
      -- holds the prompt, whatever it held before, and after it the tokens that the caller saw, or all
      -- of these but the last; the history is the prompt and the tokens that the caller saw, and the
      -- count is theirs, at most `max_tokens`.
      pub generate_with-IsServed :
          (fuel : ℕ) (link : Link M) (sampler : S) (caller : C) (before prompt : List ℕ)
          → Holds cached before link
          → stop.max_tokens ≤ fuel
          → Returns
              (IsServed caller prompt)
              (generate_with d no_logits sample on_token stop fuel link sampler caller prompt)
      unfolding generate_with Returns
      generate_with-IsServed fuel link sampler caller before prompt h enough =
          elim (Bool-cases (length prompt == 0)) [
            | inl empty ↦ rw (empty, Returns, generate_with) tt
            | inr tokens ↦ elim (Result-cases (ask d (done_of d) link Command.reset)) [
              | inl (e, broke) ↦ rw (tokens, Returns, generate_with) (rw broke tt)
              | inr ((link', done), went) ↦
                  let cleared : Holds cached [] link' =
                    Settles-ok (λ (x : Link M × Unit {0}). Holds cached [] x.0) _
                      (reset-Settles link before h) went in
                  elim (Result-cases (feed d no_logits link' prompt)) [
                    | inl (e, broke) ↦ rw (tokens, Returns, generate_with) (rw went (rw broke tt))
                    | inr ((link'', l), fed) ↦
                        let held : Holds cached prompt link'' =
                          Settles-ok (λ (x : Link M × L). Holds cached prompt x.0) _
                            (feed-Settles no_logits link' [] prompt cleared) fed in
                        let start =
                          first_turn (session_closures d no_logits sample on_token) stop link''
                            sampler caller l prompt in
                        elim (Bool-cases (stop.max_tokens == 0)) [
                          | inl nothing ↦
                              rw (tokens, Returns, generate_with)
                                (rw went (
                                  rw fed (
                                    rw nothing (record {
                                      emitted = [];
                                      fed = [];
                                      device = rw (append-nil prompt) held;
                                      history = sym (append-nil prompt);
                                      seen = unfold tell in refl;
                                      behind = inl refl;
                                      counted = refl;
                                      bounded = omega arith;
                                    }))))
                          | inr wanted ↦
                              rw (tokens, Returns, generate_with)
                                (rw went (
                                  rw fed (
                                    rw wanted (
                                      Returns-imp
                                        (loop (session_closures d no_logits sample on_token) stop
                                          fuel start)
                                        (λ u r.
                                          IsRun-IsServed link'' sampler caller l prompt u held r)
                                        (loop-IsRun _ stop fuel start (ground arith)
                                          (omega arith))))))
                        ]
                  ]
            ]
          ]

    -- On a live thread, a prompt of at least one token either runs, and then the device holds exactly
    -- the prompt, whatever it held before, and is still alive; or the error that comes back is one that
    -- the device thread reported: never a lost thread nor an unexpected reply.
    pub run-Settles :
        (link : Link M) (before : List ℕ) (t : ℕ) (ts : List ℕ) (tap : Bool)
        → Holds cached before link
        → Settles
            (λ (x : Link M × (L × Option T)). Holds cached (t ∷ ts) x.0)
            (run d link (t ∷ ts) tap)
    unfolding run
    run-Settles link before t ts tap h =
        Settles->>= (λ (x : Link M × Unit {0}). Holds cached [] x.0) _ _ _
          (reset-Settles link before h) (λ x held. run_tokens-Settles tap x.0 [] t ts held)
