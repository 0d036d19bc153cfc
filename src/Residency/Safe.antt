-- ===== src/Residency/Safe.antt =====
-- `simulate` never panics.
use mo_earc.Common.{
  ℕ, ◌+◌, ◌≤◌, ◌≡◌, ◌⊎◌, refl, sym, ◌∙◌, arith, Bool, true, false, Bool-cases, inl, inr, ltb,
  ltb→le, ◌==◌, some, List, [], ◌∷◌, length, contains, beq_refl, NoDup, ◌≢◌,
}
use mo_earc.Common.Results.{Result, ok, err}
use mo_earc.Cache.Types.{ExpertRef, expert_ref_eq}
use mo_earc.Cache.Pool.{distinct_of}
use mo_earc.Cache.Distinct.{contains-distinct_of}
use mo_earc.Cache.Sorted.{length-distinct_of_le}
use mo_earc.Residency.Types.{Trace, Policy, Residency, SimError, Cache}
use mo_earc.Residency.Trace.{peak_of, peak_step_demand}
use mo_earc.Residency.NextUse.{build}
use mo_earc.Residency.Policies.{on_miss, miss_under}
use mo_earc.Residency.Simulate.{
  Run, note_first, arrive, serve_hit, serve_miss, serve_demand, demand_all, replay, end_of_step,
  count_miss, shares, is_optimal, new_cache, no_residency, simulate_cached, simulate_policy,
  simulate,
}
use mo_earc.Residency.Members.{Keeps, Keeps-trans, kept, note_access-Keeps, on_hit-Keeps}
use mo_earc.Residency.Whole.{IsWhole, Keeps-IsWhole}
use mo_earc.Residency.Misses.{on_miss-Admits}
use mo_earc.Residency.Total.{IsUndivided, IsPinned, on_miss-Serves}
use mo_earc.Residency.Account.{note_first-cache}
use mo_earc.Residency.Replay.{end_of_step-Keeps}

unfoldable pub IsDivided : Policy → Type 0
IsDivided (Policy.slru p) = Unit
IsDivided (Policy.two_q i o) = Unit
IsDivided (Policy.pinned_hot p w) = Unit
IsDivided (Policy.w_tiny_lfu w p) = Unit
IsDivided other = ⊥

-- What keeps the cache of a simulation with `cap` slots from a panic.
pub record IsReady (cap : ℕ) (c : Cache) : Type 0 where
  pub whole : IsWhole c
  pub room :
      (IsUndivided c.policy c.next_use × (length c.resident ≤ c.capacity) × (c.capacity ≡ cap))
      ⊎ IsDivided c.policy

Keeps-IsReady : {cap : ℕ} {c d : Cache} → Keeps c d → IsReady cap c → IsReady cap d
Keeps-IsReady k r = record {
  whole = Keeps-IsWhole k r.whole;
  room = rw (k.policy, k.next_use, k.resident, k.capacity) r.room;
}

divided_miss :
    (p : Policy) (c : Cache) (e : ExpertRef) (pinned : List ExpertRef) (step_idx : ℕ)
    → IsDivided p
    → (d : Cache) × (miss_under p c e pinned step_idx ≡ some d)
unfolding IsDivided miss_under
divided_miss (Policy.slru p) c e pinned i h = (_, refl)
divided_miss (Policy.two_q a b) c e pinned i h = (_, refl)
divided_miss (Policy.pinned_hot p w) c e pinned i h = (_, refl)
divided_miss (Policy.w_tiny_lfu w p) c e pinned i h = (_, refl)
divided_miss Policy.lru c e pinned i h = absurd h
divided_miss Policy.lfu c e pinned i h = absurd h
divided_miss Policy.optimal c e pinned i h = absurd h
divided_miss (Policy.static_split l) c e pinned i h = absurd h
divided_miss (Policy.lru_k k) c e pinned i h = absurd h
divided_miss Policy.phase_lru c e pinned i h = absurd h

on_miss-IsReady :
    {cap : ℕ} (c : Cache) (e : ExpertRef) (pinned : List ExpertRef) (step_idx : ℕ)
    → IsReady cap c
    → contains pinned e ≡ true
    → length pinned ≤ cap
    → contains c.member e ≡ false
    → (d : Cache) × (on_miss c e pinned step_idx ≡ some d) × IsReady cap d
unfolding on_miss
on_miss-IsReady {cap} c e pinned step_idx r here few absent =
    let outside = sym (r.whole.agree e) ∙ absent in
    elim r.room [
      | inl (undivided, within, slots) ↦
          let p : IsPinned c pinned e = record { here = here; few = omega (arith, few, slots) } in
          let (d, ran, s) = on_miss-Serves step_idx r.whole p outside within undivided in
          let a = on_miss-Admits pinned step_idx r.whole outside ran in
          (
            d,
            ran,
            record {
              whole = a.whole;
              room = inl (rw (a.policy, a.next_use) undivided, s.within, a.capacity ∙ slots);
            },
          )
      | inr divided ↦
          let (d, ran) = divided_miss c.policy c e pinned step_idx divided in
          let a = on_miss-Admits pinned step_idx r.whole outside ran in
          (d, ran, record { whole = a.whole; room = inr (rw a.policy divided) })
    ]

serve_demand-IsReady :
    {cap : ℕ} (per : ℕ) (pinned : List ExpertRef) (step_idx : ℕ) (r : Run) (e : ExpertRef)
    → IsReady cap r.cache
    → contains pinned e ≡ true
    → length pinned ≤ cap
    → (r' : Run) × (serve_demand per pinned step_idx r e ≡ some r') × IsReady cap r'.cache
unfolding serve_demand serve_hit serve_miss arrive
serve_demand-IsReady {cap} per pinned step_idx r e ready here few =
    let k = note_access-Keeps r.cache e (r.clock + 1) in
    let base : Run = record (arrive r e) { stats = count_miss per (arrive r e).stats } in
    elim (Bool-cases (contains (arrive r e).cache.member e)) [
      | inl resident ↦ (
        serve_hit (arrive r e) e pinned,
        rw (resident, serve_demand) refl,
        Keeps-IsReady (Keeps-trans k (on_hit-Keeps (arrive r e).cache e pinned)) ready,
      )
      | inr absent ↦
          let same = note_first-cache base e in
          let (d, ran, ready') =
            on_miss-IsReady (note_first base e).cache e pinned step_idx
              (rw same (Keeps-IsReady k ready)) here few (rw same absent) in
          (
            record (note_first base e) { cache = d },
            rw (absent, serve_demand) (rw (ran, serve_miss) refl),
            ready',
          )
    ]

demand_all-IsReady :
    {cap : ℕ} (per : ℕ) (pinned : List ExpertRef) (step_idx : ℕ) (es : List ExpertRef) (r : Run)
    → IsReady cap r.cache
    → ((x : ExpertRef) → contains es x ≡ true → contains pinned x ≡ true)
    → length pinned ≤ cap
    → (r' : Run) × (demand_all per pinned step_idx es r ≡ some r') × IsReady cap r'.cache
unfolding demand_all contains
demand_all-IsReady per pinned step_idx [] r ready all few = (r, refl, ready)
demand_all-IsReady {cap} per pinned step_idx (e ∷ es) r ready all few =
    let (r1, first, ready1) =
      serve_demand-IsReady {cap = cap} per pinned step_idx r e ready (all e (rw (beq_refl e) refl))
        few in
    let (r2, rest, ready2) =
      demand_all-IsReady {cap = cap} per pinned step_idx es r1 ready1 (λ x h. all x (ground arith))
        few in
    (r2, rw (first, demand_all) rest, ready2)

replay-IsReady :
    {cap : ℕ} (per step_idx : ℕ) (steps : List (List ExpertRef)) (r : Run)
    → IsReady cap r.cache
    → peak_of steps ≤ cap
    → (r' : Run) × (replay per step_idx steps r ≡ some r')
unfolding replay peak_of
replay-IsReady per step_idx [] r ready small = (r, refl)
replay-IsReady {cap} per step_idx (s ∷ ss) r ready small =
    let started : Run = record r { cache = record (r.cache) { cur_step = step_idx } } in
    let (r1, first, ready1) =
      demand_all-IsReady {cap = cap} per (distinct_of s) step_idx s started
        (Keeps-IsReady (kept refl refl refl refl refl) ready) (λ x h. contains-distinct_of s x ∙ h)
        (omega (arith, length-distinct_of_le s, small)) in
    let ended : Run = record r1 { cache = end_of_step r1.cache step_idx } in
    let (r2, rest) =
      replay-IsReady {cap = cap} per (step_idx + 1) ss ended
        (Keeps-IsReady (end_of_step-Keeps r1.cache step_idx) ready1) (omega (arith, small)) in
    (r2, rw (first, replay) rest)

unfoldable pub is_static : Policy → Bool
is_static (Policy.static_split l) = true
is_static other = false

new_cache_room :
    (capacity : ℕ) (policy : Policy) (trace : Trace)
    → is_static policy ≡ false
    → let c = new_cache capacity policy trace in
      (IsUndivided c.policy c.next_use × (length c.resident ≤ c.capacity) × (c.capacity ≡ capacity))
      ⊎ IsDivided c.policy
unfolding new_cache shares is_optimal is_static IsUndivided IsDivided
new_cache_room capacity Policy.lru trace dynamic = inl (tt, omega arith, refl)
new_cache_room capacity Policy.lfu trace dynamic = inl (tt, omega arith, refl)
new_cache_room capacity Policy.optimal trace dynamic = inl ((build trace, refl), omega arith, refl)
new_cache_room capacity (Policy.lru_k k) trace dynamic = inl (tt, omega arith, refl)
new_cache_room capacity Policy.phase_lru trace dynamic = inl (tt, omega arith, refl)
new_cache_room capacity (Policy.slru p) trace dynamic = inr tt
new_cache_room capacity (Policy.two_q i o) trace dynamic = inr tt
new_cache_room capacity (Policy.pinned_hot p w) trace dynamic = inr tt
new_cache_room capacity (Policy.w_tiny_lfu w p) trace dynamic = inr tt
new_cache_room capacity (Policy.static_split l) trace dynamic = cc

simulate_cached_total :
    (trace : Trace) (capacity : ℕ) (policy : Policy) (per : ℕ)
    → is_static policy ≡ false
    → peak_step_demand trace ≤ capacity
    → (s : Residency) × (simulate_cached trace capacity policy per ≡ some (ok s))
unfolding simulate_cached peak_step_demand
simulate_cached_total trace capacity policy per dynamic small =
    let start : Run = record {
      cache = new_cache capacity policy trace;
      ever_seen = [];
      clock = 0;
      stats = no_residency trace capacity policy;
    } in
    let ready : IsReady capacity start.cache = record {
      whole = unfold new_cache NoDup in (record { agree = λ x. refl; distinct = tt });
      room = new_cache_room capacity policy trace dynamic;
    } in
    let (r, ran) = replay-IsReady {cap = capacity} per 0 trace.steps start ready small in
    (r.stats, rw (ran, simulate_cached) refl)

simulate_policy_total :
    (trace : Trace) (capacity : ℕ) (policy : Policy) (per : ℕ)
    → peak_step_demand trace ≤ capacity
    → (answer : Result SimError Residency) × (simulate_policy trace capacity policy per
        ≡ some answer)
      × (is_static policy ≡ false → (s : Residency) × (answer ≡ ok s))
unfolding simulate_policy is_static
simulate_policy_total trace capacity (Policy.static_split l) per small = (_, refl, λ bad. cc)
simulate_policy_total trace capacity Policy.lru per small =
    let (s, ran) = simulate_cached_total trace capacity Policy.lru per refl small in
    (ok s, ran, λ h. (s, refl))
simulate_policy_total trace capacity Policy.lfu per small =
    let (s, ran) = simulate_cached_total trace capacity Policy.lfu per refl small in
    (ok s, ran, λ h. (s, refl))
simulate_policy_total trace capacity Policy.optimal per small =
    let (s, ran) = simulate_cached_total trace capacity Policy.optimal per refl small in
    (ok s, ran, λ h. (s, refl))
simulate_policy_total trace capacity (Policy.lru_k k) per small =
    let (s, ran) = simulate_cached_total trace capacity (Policy.lru_k k) per refl small in
    (ok s, ran, λ h. (s, refl))
simulate_policy_total trace capacity Policy.phase_lru per small =
    let (s, ran) = simulate_cached_total trace capacity Policy.phase_lru per refl small in
    (ok s, ran, λ h. (s, refl))
simulate_policy_total trace capacity (Policy.slru p) per small =
    let (s, ran) = simulate_cached_total trace capacity (Policy.slru p) per refl small in
    (ok s, ran, λ h. (s, refl))
simulate_policy_total trace capacity (Policy.two_q i o) per small =
    let (s, ran) = simulate_cached_total trace capacity (Policy.two_q i o) per refl small in
    (ok s, ran, λ h. (s, refl))
simulate_policy_total trace capacity (Policy.pinned_hot p w) per small =
    let (s, ran) = simulate_cached_total trace capacity (Policy.pinned_hot p w) per refl small in
    (ok s, ran, λ h. (s, refl))
simulate_policy_total trace capacity (Policy.w_tiny_lfu w p) per small =
    let (s, ran) = simulate_cached_total trace capacity (Policy.w_tiny_lfu w p) per refl small in
    (ok s, ran, λ h. (s, refl))

-- `simulate` never panics, for any trace, capacity and policy; and where the capacity is not zero and
-- holds the largest step, every policy but the static split returns a residency.
pub simulate_total :
    (trace : Trace) (capacity : ℕ) (policy : Policy) (per : ℕ)
    → (answer : Result SimError Residency) × (simulate trace capacity policy per ≡ some answer)
      × (capacity ≢ 0
          → peak_step_demand trace ≤ capacity
          → is_static policy ≡ false
          → (s : Residency) × (answer ≡ ok s))
unfolding simulate
simulate_total trace capacity policy per = elim (Bool-cases (capacity == 0)) [
  | inl nothing ↦ (
    err SimError.zero_capacity,
    rw (nothing, simulate) refl,
    λ pos fits dynamic. absurd (pos (ground arith)),
  )
  | inr slots ↦ elim (Bool-cases (ltb capacity (peak_step_demand trace))) [
    | inl small ↦ (
      err (SimError.capacity_below_peak_demand capacity (peak_step_demand trace)),
      rw (slots, simulate) (rw small refl),
      λ pos fits dynamic. absurd (ground arith),
    )
    | inr fits ↦
        let (answer, ran, dynamic_ok) =
          simulate_policy_total trace capacity policy per (ltb→le _ _ fits) in
        (answer, rw (slots, simulate) (rw fits ran), λ pos le dynamic. dynamic_ok dynamic)
  ]
]
