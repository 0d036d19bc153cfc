-- ===== src/Generate/Tests.antt =====
-- A device that counts its tokens, and a sampler that answers with the length of the history: after
-- two tokens the third answer stops the turn.
use Prim.Native.String.{String}
use mo_earc.Common.{
  ℕ, ◌+◌, ◌≡◌, inl, inr, refl, arith, Bool, true, false, ltb, ◌==◌, Option, none, some, contains,
  nat_eq, le→ltb, lt→ltb, ltb→lt, ltb→le, List, [], ◌∷◌, ◌++◌, length, if◌then◌else◌, Bool-cases,
}
use mo_earc.Common.Results.{Result, ok, err}
use mo_earc.Generate.Types.{StopReason, StopConditions}
use mo_earc.Generate.Drive.{Closures, returned, accept, loop, drive}
use mo_earc.Generate.Emits.{Returns, Ends}
use mo_earc.Generate.Driven.{IsDriven, Undriven, drive-IsDriven}
use mo_earc.Generate.Device.{Model}
use mo_earc.Generate.Session.{SessionError, Link, run, generate_with}
use mo_earc.Generate.Tracked.{
  IsTracking, Holds, Settles, IsServed, generate_with-IsServed, run-Settles,
}
use mo_earc.Generate.Greedy.{argmax, IsOrder, IsFirstMax, argmax-IsFirstMax}

abbrev decoded : Bool → List ℕ × Bool → ℕ → (List ℕ × Bool) × Result String ℕ
decoded true m t = (m, err "no")
decoded false m t = ((m.0 ++ (t ∷ []), m.1), ok t)

decoded_appends :
    (refused : Bool) (m : List ℕ × Bool) (t : ℕ) {l : ℕ}
    → (decoded refused m t).1 ≡ ok l
    → (decoded refused m t).0.0 ≡ m.0 ++ (t ∷ [])
decoded_appends true m t h = cc
decoded_appends false m t h = refl

-- The device keeps its tokens and whether it is tapped; the token 99 fails.
abbrev device : Model (List ℕ × Bool) ℕ ℕ ℕ ℕ
device = record {
  reset = λ m. (([], m.1), ok tt);
  decode = λ m t. decoded (t == 99) m t;
  set_tap = λ m tap. (m.0, tap);
  take_tap = λ m. ((m.0, false), if m.1 then some 7 else none);
  reset_cache_stats = λ m. m;
  event_profile = λ m. (m, ok 0);
  reset_event_profile = λ m. (m, ok tt);
  clear_residency = λ m. (m, ok tt);
  residency = λ m. 0;
}

device-IsTracking : IsTracking device (λ m. m.0)
device-IsTracking = record {
  on_reset = λ m. refl;
  on_decode = λ m t h. decoded_appends (t == 99) m t h;
  on_set_tap = λ m tap. refl;
  on_take_tap = λ m. refl;
}

abbrev loaded : Link (List ℕ × Bool)
loaded = record { thread = some (5 ∷ [], false) }

abbrev after_seven : StopConditions
after_seven = record { max_tokens = 8; stop_tokens = 4 ∷ 7 ∷ [] }

abbrev three : List ℕ
three = 10 ∷ 11 ∷ 12 ∷ []

abbrev sampled : ℕ → ℕ → List ℕ → ℕ × ℕ
sampled s logits history = (s + 1, length history + s)

abbrev heard : List ℕ → ℕ → List ℕ × Bool
heard c t = (c ++ (t ∷ []), true)

run-Settles_example :
    Settles device
      (λ (x : Link (List ℕ × Bool) × (ℕ × Option ℕ)). Holds device (λ m. m.0) three x.0)
      (run device loaded three true)
run-Settles_example =
    run-Settles device device-IsTracking loaded (5 ∷ []) 10 (11 ∷ 12 ∷ []) true
      ((5 ∷ [], false), refl, refl)

abbrev no_closures : Closures SessionError (List ℕ) ℕ (List ℕ) ℕ
no_closures = record {
  advance = λ a ts. ok (a ++ ts, length ts);
  sample = sampled;
  on_token = heard;
  empty_prompt = SessionError.empty_prompt;
}

-- Two tokens, 3 and 5, and then the stop token 7.
stops_at_seven :
    drive no_closures after_seven 8 [] 0 [] three
    ≡ returned (record {
      engine = 10 ∷ 11 ∷ 12 ∷ 3 ∷ 5 ∷ [];
      sampler = 3;
      caller = 3 ∷ 5 ∷ [];
      logits = 1;
      history = 10 ∷ 11 ∷ 12 ∷ 3 ∷ 5 ∷ [];
      stats = record {
        prompt_tokens = 3;
        completion_tokens = 2;
        stop_reason = StopReason.end_of_turn;
      };
    })
unfolding drive loop accept contains
stops_at_seven = refl

drive-IsDriven_example :
    Ends
      (IsDriven no_closures after_seven [] 0 [] three)
      (Undriven no_closures after_seven [] three)
      (drive no_closures after_seven 8 [] 0 [] three)
drive-IsDriven_example = drive-IsDriven no_closures after_seven 8 [] 0 [] three (omega arith)

generate_with-IsServed_example :
    Returns
      (IsServed device device-IsTracking 0 sampled heard after_seven [] three)
      (generate_with device 0 sampled heard after_seven 8 loaded 0 [] three)
generate_with-IsServed_example =
    generate_with-IsServed device device-IsTracking 0 sampled heard after_seven 8 loaded 0 []
      (5 ∷ []) three ((5 ∷ [], false), refl, refl) (omega arith)

above_order : IsOrder (λ a b. ltb b a)
above_order = record {
  irreflexive = λ a. le→ltb a a (omega arith);
  transitive = λ a b c h k. lt→ltb c a (omega (arith, ltb→lt b a h, ltb→lt c b k));
  compares = λ a b c h. elim (Bool-cases (ltb b a)) [
    | inl e ↦ inl e
    | inr e ↦ inr (lt→ltb c b (omega (arith, ltb→le b a e, ltb→lt c a h)))
  ];
}

argmax-IsFirstMax_example :
    (winner : ℕ) × IsFirstMax
      (λ a b. ltb b a)
      (3 ∷ 8 ∷ 1 ∷ 8 ∷ [])
      (argmax (λ a b. ltb b a) (3 ∷ 8 ∷ 1 ∷ 8 ∷ []))
      winner
argmax-IsFirstMax_example =
    argmax-IsFirstMax (λ a b. ltb b a) above_order 3 (8 ∷ 1 ∷ 8 ∷ []) (omega arith)
