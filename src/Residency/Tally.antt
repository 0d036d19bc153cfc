-- ===== src/Residency/Tally.antt =====
-- The accounts that `simulate` returns.
use mo_earc.Common.{
  ℕ, suc, ◌+◌, ◌≡◌, refl, arith, Bool-cases, inl, inr, ltb, ◌==◌, some, List, [], ◌∷◌, length,
  length-append, contains, NoDup,
}
use mo_earc.Common.Results.{ok, err}
use mo_earc.Cache.Types.{ExpertRef, expert_ref_eq}
use mo_earc.Cache.Sorted.{length-distinct_of}
use mo_earc.Residency.Types.{Trace, Policy, Residency, SimError}
use mo_earc.Residency.Trace.{
  flatten, demands, demands_of, working_set, peak_step_demand, experts_in_layers_below,
}
use mo_earc.Residency.Simulate.{
  Run, count_demand, count_hit, count_miss, replay, new_cache, no_residency, simulate_cached,
  simulate_static, simulate_policy, simulate, static_step, static_run,
}
use mo_earc.Residency.Account.{IsTally, Counted, IsTally-hit, IsTally-miss}
use mo_earc.Residency.Replay.{some-chain, replay-Counted}

length-flatten : (steps : List (List ExpertRef)) → length (flatten steps) ≡ demands_of steps
unfolding flatten demands_of
length-flatten [] = refl
length-flatten (s ∷ ss) = omega (arith, length-append s (flatten ss), length-flatten ss)

-- The misses that no policy avoids; a static split does not count them.
unfoldable pub firsts : Policy → Trace → ℕ
firsts (Policy.static_split l) trace = 0
firsts other trace = working_set trace

simulate_cached-IsTally :
    (trace : Trace) (capacity : ℕ) (policy : Policy) (per : ℕ) {s : Residency}
    → simulate_cached trace capacity policy per ≡ some (ok s)
    → IsTally per (demands trace) (working_set trace) s
unfolding simulate_cached new_cache no_residency demands working_set NoDup contains
simulate_cached-IsTally trace capacity policy per {s} h =
    let start : Run = record {
      cache = new_cache capacity policy trace;
      ever_seen = [];
      clock = 0;
      stats = no_residency trace capacity policy;
    } in
    let start-Counted : Counted per [] start = record {
      whole = record { agree = λ x. refl; distinct = tt };
      known = λ x k. k;
      once = tt;
      same = λ x. refl;
      tally = record {
        demands = refl;
        split = refl;
        first = refl;
        first_le = omega arith;
        bytes = omega arith;
      };
    } in
    let (r, ran, answered) =
      some-chain (replay per 0 trace.steps start) (λ q. some (ok q.stats)) h in
    let same : r.stats ≡ s = cc in
    let c = replay-Counted 0 trace.steps start start-Counted ran in
    rw
      (
        ← same,
        ← length-flatten trace.steps,
        ← length-distinct_of (flatten trace.steps) r.ever_seen c.once c.same,
      )
      c.tally

static_step-IsTally :
    {per : ℕ} (layers : ℕ) (es : List ExpertRef) (n : ℕ) (s : Residency)
    → IsTally per n 0 s
    → IsTally per (n + length es) 0 (static_step layers per es s)
unfolding static_step
static_step-IsTally {per} layers [] n s t = let e : n + 0 ≡ n = omega arith in rw e t
static_step-IsTally {per} layers (x ∷ es) n s t =
    let e : n + suc (length es) ≡ n + 1 + length es = omega arith in
    rw e (elim (Bool-cases (ltb x.layer layers)) [
      | inl inside ↦
          rw (inside, static_step)
            (static_step-IsTally layers es (n + 1) (count_hit (count_demand s)) (IsTally-hit t))
      | inr outside ↦
          rw (outside, static_step)
            (static_step-IsTally layers es (n + 1) (count_miss per (count_demand s))
              (IsTally-miss t))
    ])

static_run-IsTally :
    {per : ℕ} (layers : ℕ) (steps : List (List ExpertRef)) (n : ℕ) (s : Residency)
    → IsTally per n 0 s
    → IsTally per (n + demands_of steps) 0 (static_run layers per steps s)
unfolding static_run demands_of
static_run-IsTally {per} layers [] n s t = let e : n + 0 ≡ n = omega arith in rw e t
static_run-IsTally {per} layers (step ∷ steps) n s t =
    let e : n + (length step + demands_of steps) ≡ n + length step + demands_of steps =
      omega arith in
    rw e (
      static_run-IsTally layers steps (n + length step) (static_step layers per step s)
        (static_step-IsTally layers step n s t))

simulate_static-IsTally :
    (trace : Trace) (capacity layers per : ℕ) {s : Residency}
    → simulate_static trace capacity layers per ≡ ok s
    → IsTally per (demands trace) 0 s
unfolding simulate_static no_residency demands
simulate_static-IsTally trace capacity layers per {s} h =
    elim (Bool-cases (ltb capacity (experts_in_layers_below trace layers))) [
      | inl wide ↦
          let bad : err (
                SimError.static_split_exceeds_capacity (experts_in_layers_below trace layers)
                  capacity layers)
              ≡ ok s =
            rw (wide, simulate_static) at h in
          cc
      | inr fits ↦
          let start = no_residency trace capacity (Policy.static_split layers) in
          let t : IsTally per 0 0 start = record {
            demands = refl;
            split = refl;
            first = refl;
            first_le = omega arith;
            bytes = omega arith;
          } in
          let done : ok (static_run layers per trace.steps start) ≡ ok s =
            rw (fits, simulate_static) at h in
          let same : static_run layers per trace.steps start ≡ s = cc in
          let zero_add : demands_of trace.steps ≡ 0 + demands_of trace.steps = omega arith in
          rw (← same, zero_add) (static_run-IsTally layers trace.steps 0 start t)
    ]

simulate_policy-IsTally :
    (trace : Trace) (capacity : ℕ) (policy : Policy) (per : ℕ) {s : Residency}
    → simulate_policy trace capacity policy per ≡ some (ok s)
    → IsTally per (demands trace) (firsts policy trace) s
unfolding simulate_policy firsts
simulate_policy-IsTally trace capacity Policy.lru per h =
    simulate_cached-IsTally trace capacity Policy.lru per h
simulate_policy-IsTally trace capacity Policy.lfu per h =
    simulate_cached-IsTally trace capacity Policy.lfu per h
simulate_policy-IsTally trace capacity Policy.optimal per h =
    simulate_cached-IsTally trace capacity Policy.optimal per h
simulate_policy-IsTally trace capacity (Policy.static_split l) per {s} h =
    let answer : simulate_static trace capacity l per ≡ ok s = cc in
    simulate_static-IsTally trace capacity l per answer
simulate_policy-IsTally trace capacity (Policy.slru p) per h =
    simulate_cached-IsTally trace capacity (Policy.slru p) per h
simulate_policy-IsTally trace capacity (Policy.two_q i o) per h =
    simulate_cached-IsTally trace capacity (Policy.two_q i o) per h
simulate_policy-IsTally trace capacity (Policy.lru_k k) per h =
    simulate_cached-IsTally trace capacity (Policy.lru_k k) per h
simulate_policy-IsTally trace capacity (Policy.pinned_hot p w) per h =
    simulate_cached-IsTally trace capacity (Policy.pinned_hot p w) per h
simulate_policy-IsTally trace capacity Policy.phase_lru per h =
    simulate_cached-IsTally trace capacity Policy.phase_lru per h
simulate_policy-IsTally trace capacity (Policy.w_tiny_lfu w p) per h =
    simulate_cached-IsTally trace capacity (Policy.w_tiny_lfu w p) per h

-- Whatever the policy, the residency that `simulate` returns counts every demand of the trace, each as
-- a hit or as a miss; its bytes are those of the misses, modulo 2^64; and its compulsory misses, none
-- of them uncounted as a miss, are the distinct experts of the trace, or none for a static split.
pub simulate-IsTally :
    (trace : Trace) (capacity : ℕ) (policy : Policy) (per : ℕ) {s : Residency}
    → simulate trace capacity policy per ≡ some (ok s)
    → IsTally per (demands trace) (firsts policy trace) s
unfolding simulate
simulate-IsTally trace capacity policy per {s} h = elim (Bool-cases (capacity == 0)) [
  | inl zero_slots ↦
      let bad : some (err SimError.zero_capacity) ≡ some (ok s) = rw (zero_slots, simulate) at h in
      refuse_ok bad
  | inr slots ↦ elim (Bool-cases (ltb capacity (peak_step_demand trace))) [
    | inl small ↦ refuse_ok (rw (small) at (rw (slots, simulate) at h))
    | inr fits ↦
        simulate_policy-IsTally trace capacity policy per (rw fits at (rw (slots, simulate) at h))
  ]
]
  where
    refuse_ok :
        {e : SimError}
        → some (err e) ≡ some (ok s)
        → IsTally per (demands trace) (firsts policy trace) s
    refuse_ok k = cc
