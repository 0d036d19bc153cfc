-- ===== src/Residency/Replay.antt =====
-- The accounts of a whole simulation.
use mathlib.Core.List.{append_assoc, append-nil}
use mo_earc.Common.{
  ℕ, ◌+◌, ◌≡◌, refl, sym, Bool-cases, inl, inr, ◌==◌, Option, none, some, List, [], ◌∷◌, ◌++◌,
  contains,
}
use mo_earc.Cache.Types.{ExpertRef, expert_ref_eq}
use mo_earc.Cache.Pool.{distinct_of}
use mo_earc.Residency.Types.{Policy, Cache}
use mo_earc.Residency.Trace.{flatten}
use mo_earc.Residency.Simulate.{
  Run, arrive, serve_hit, serve_demand, demand_all, replay, pin_hot, end_of_step,
}
use mo_earc.Residency.Members.{Keeps, Keeps-refl, if-Keeps, kept}
use mo_earc.Residency.Whole.{Keeps-IsWhole}
use mo_earc.Residency.Account.{Counted, serve_hit-Counted, serve_miss-Counted}

-- A chain of steps that may panic.
pub some-chain :
    {A B : Type 0} (o : Option A) (next : A → Option B) {y : B}
    → (elim o as (λ x. Option B) [ none ↦ none | some x ↦ next x ]) ≡ some y
    → (x : A) × (o ≡ some x) × (next x ≡ some y)
some-chain none next h = cc
some-chain (some x) next h = (x, refl, h)

Counted-Keeps :
    {per : ℕ} {seen : List ExpertRef} {r : Run} {d : Cache}
    → Keeps r.cache d
    → Counted per seen r
    → Counted per seen (record r { cache = d })
Counted-Keeps k c = record {
  whole = Keeps-IsWhole k c.whole;
  known = λ x h. c.known x (rw k.resident at h);
  once = c.once;
  same = c.same;
  tally = c.tally;
}

serve_demand-Counted :
    {per : ℕ} {seen : List ExpertRef} (pinned : List ExpertRef) (step_idx : ℕ) (r : Run)
    (e : ExpertRef) {r' : Run}
    → Counted per seen r
    → serve_demand per pinned step_idx r e ≡ some r'
    → Counted per (seen ++ (e ∷ [])) r'
unfolding serve_demand
serve_demand-Counted {per} {seen} pinned step_idx r e {r'} c h =
    elim (Bool-cases (contains (arrive r e).cache.member e)) [
      | inl resident ↦
          let same : serve_hit (arrive r e) e pinned ≡ r' =
            some_inj (rw (resident, serve_demand) at h) in
          rw (← same) (serve_hit-Counted e pinned c resident)
      | inr absent ↦ serve_miss-Counted e pinned step_idx c absent (rw (absent, serve_demand) at h)
    ]
  where
    some_inj : {x y : Run} → some x ≡ some y → x ≡ y
    some_inj k = cc

demand_all-Counted :
    {per : ℕ} {seen : List ExpertRef} (pinned : List ExpertRef) (step_idx : ℕ) (es : List ExpertRef)
    (r : Run) {r' : Run}
    → Counted per seen r
    → demand_all per pinned step_idx es r ≡ some r'
    → Counted per (seen ++ es) r'
unfolding demand_all
demand_all-Counted {per} {seen} pinned step_idx [] r {r'} c h =
    let same : r ≡ r' = cc in rw (append-nil seen) (rw (← same) c)
demand_all-Counted {per} {seen} pinned step_idx (e ∷ es) r c h =
    let (r1, first, rest) = some-chain (serve_demand per pinned step_idx r e) _ h in
    rw (sym (append_assoc seen (e ∷ []) es)) (
      demand_all-Counted pinned step_idx es r1 (serve_demand-Counted pinned step_idx r e c first)
        rest)

pub end_of_step-Keeps : (c : Cache) (step_idx : ℕ) → Keeps c (end_of_step c step_idx)
unfolding end_of_step pin_hot
end_of_step-Keeps c step_idx = by_policy c.policy
  where
    by_policy : (p : Policy) → Keeps c (pin_hot p c step_idx)
    by_policy Policy.lru = Keeps-refl c
    by_policy Policy.lfu = Keeps-refl c
    by_policy Policy.optimal = Keeps-refl c
    by_policy (Policy.static_split l) = Keeps-refl c
    by_policy (Policy.slru p) = Keeps-refl c
    by_policy (Policy.two_q i o) = Keeps-refl c
    by_policy (Policy.lru_k k) = Keeps-refl c
    by_policy Policy.phase_lru = Keeps-refl c
    by_policy (Policy.w_tiny_lfu u p) = Keeps-refl c
    by_policy (Policy.pinned_hot pin_pct warmup_steps) =
        if-Keeps (step_idx + 1 == warmup_steps) (kept refl refl refl refl refl) (Keeps-refl c)

pub replay-Counted :
    {per : ℕ} {seen : List ExpertRef} (step_idx : ℕ) (steps : List (List ExpertRef)) (r : Run)
    {r' : Run}
    → Counted per seen r
    → replay per step_idx steps r ≡ some r'
    → Counted per (seen ++ flatten steps) r'
unfolding replay flatten
replay-Counted {per} {seen} step_idx [] r {r'} c h =
    let same : r ≡ r' = cc in rw (append-nil seen) (rw (← same) c)
replay-Counted {per} {seen} step_idx (s ∷ ss) r c h =
    let started : Run = record r { cache = record (r.cache) { cur_step = step_idx } } in
    let (r1, first, rest) = some-chain (demand_all per (distinct_of s) step_idx s started) _ h in
    let c1 =
      demand_all-Counted (distinct_of s) step_idx s started
        (Counted-Keeps (kept refl refl refl refl refl) c) first in
    rw (sym (append_assoc seen s (flatten ss))) (
      replay-Counted (step_idx + 1) ss (record r1 { cache = end_of_step r1.cache step_idx })
        (Counted-Keeps (end_of_step-Keeps r1.cache step_idx) c1) rest)
