-- ===== src/Residency/Tests.antt =====
-- A trace of three steps over two layers.
use mo_earc.Common.{
  ℕ, ◌≤◌, ◌≡◌, ◌≢◌, refl, arith, false, Option, none, some, List, [], ◌∷◌, length, contains, lookup,
  insert, remove, without, nat_eq, NoDup,
}
use mo_earc.Common.Results.{Result, ok}
use mo_earc.Cache.Types.{ExpertRef, expert_eq, expert_ref_eq}
use mo_earc.Residency.Types.{Trace, Policy, Seg, Residency, SimError, Cache, name}
use mo_earc.Residency.Trace.{
  flatten, demands, demands_of, peak_of, peak_step_demand, max_layer, layers_below,
  experts_in_layers_below, working_set,
}
use mo_earc.Residency.NextUse.{
  last_of, push_step, steps_of, build_step, build_from, build, binary_search, after_in, after,
}
use mo_earc.Residency.Segments.{
  set_insert, count_of, halve, is_tiny_lfu, note_freq, note_access, stamp, inc, dec, dec_old,
  set_seg, cache_insert, cache_remove, evict_one, best_from, best_by, lower, lower2, not_lower,
  seg_eq, is_in, is_exempt, in_seg, stamps_of, oldest_in, freq_of, trim, push_ghost,
}
use mo_earc.Residency.Policies.{
  demote, demote_overflow, segmented_hit, hit_under, on_hit, next_need, wait, choose, expect_victim,
  simple_victim, or_else, main_victim, simple_miss, pinned_hot_miss, slru_miss, two_q_victim,
  two_q_evict, two_q_miss, admit_candidate, contest, w_tiny_lfu_miss, miss_under, on_miss,
}
use mo_earc.Residency.Simulate.{
  Run, pct, shares, is_optimal, new_cache, ranks_before, insert_ranked, ranked, experts_of, pin_hot,
  end_of_step, count_demand, count_hit, count_miss, note_first, arrive, serve_hit, serve_miss,
  serve_demand, demand_all, replay, static_step, static_run, no_residency, simulate_cached,
  simulate_static, simulate_policy, simulate, avoidable_misses,
}
use mo_earc.Cache.Pool.{
  expert_le, insert_sorted, sort_unstable, dedup_after, dedup, distinct_of, unpinned,
}
use mo_earc.Residency.Whole.{insert-Admits, IsWhole-Admits, IsWhole, Admits}
use mo_earc.Residency.Misses.{on_miss-Admits}
use mo_earc.Residency.Total.{IsUndivided, IsPinned, Serves, on_miss-Serves}
use mo_earc.Residency.Account.{IsTally}
use mo_earc.Residency.Tally.{firsts, simulate-IsTally}
use mo_earc.Residency.Safe.{is_static, simulate_total}
use mo_earc.Residency.Later.{next_after, after-next_after}

abbrev at : ℕ → ℕ → ExpertRef
at layer expert = record { layer = layer; expert = expert }

abbrev three_steps : Trace
three_steps = record {
  steps = (at 0 1 ∷ at 1 4 ∷ []) ∷ (at 0 2 ∷ at 1 4 ∷ []) ∷ (at 0 1 ∷ at 1 5 ∷ []) ∷ [];
}

abbrev lru_result : Residency
lru_result = record {
  policy = "lru";
  capacity = 3;
  steps = 3;
  demands = 6;
  hits = 2;
  misses = 4;
  compulsory_misses = 4;
  bytes_fetched = 40;
}

lru_run : simulate three_steps 3 Policy.lru 10 ≡ some (ok lru_result)
unfolding name flatten demands demands_of peak_of peak_step_demand max_layer layers_below
    experts_in_layers_below working_set last_of push_step steps_of build_step build_from build
    binary_search after_in after set_insert count_of halve is_tiny_lfu note_freq note_access stamp
    inc dec dec_old set_seg cache_insert cache_remove evict_one best_from best_by lower lower2
    not_lower seg_eq is_in is_exempt in_seg stamps_of oldest_in freq_of trim push_ghost demote
    demote_overflow segmented_hit hit_under on_hit next_need wait choose expect_victim simple_victim
    or_else main_victim simple_miss pinned_hot_miss slru_miss two_q_victim two_q_evict two_q_miss
    admit_candidate contest w_tiny_lfu_miss miss_under on_miss pct shares is_optimal new_cache
    ranks_before insert_ranked ranked experts_of pin_hot end_of_step count_demand count_hit
    count_miss note_first arrive serve_hit serve_miss serve_demand demand_all replay static_step
    static_run no_residency simulate_cached simulate_static simulate_policy simulate
    avoidable_misses expert_le insert_sorted sort_unstable dedup_after dedup distinct_of unpinned
    expert_eq contains lookup insert remove without
lru_run = refl

-- Two experts are hot after the first step, and the third step needs the two others: the cache of three
-- slots then has four residents.
abbrev hot_steps : List (List ExpertRef)
hot_steps = (at 0 1 ∷ at 0 2 ∷ []) ∷ (at 0 3 ∷ []) ∷ (at 0 3 ∷ at 0 4 ∷ []) ∷ []

residents_of : Option Run → List ExpertRef
residents_of none = []
residents_of (some r) = r.cache.resident

pinned_hot_overflows :
    residents_of (
      replay 10 0 hot_steps (record {
        cache = new_cache 3 (Policy.pinned_hot 95 1) (record { steps = hot_steps });
        ever_seen = [];
        clock = 0;
        stats = no_residency (record { steps = hot_steps }) 3 (Policy.pinned_hot 95 1);
      }))
    ≡ at 0 1 ∷ at 0 2 ∷ at 0 3 ∷ at 0 4 ∷ []
unfolding residents_of name flatten demands demands_of peak_of peak_step_demand max_layer
    layers_below experts_in_layers_below working_set last_of push_step steps_of build_step
    build_from build binary_search after_in after set_insert count_of halve is_tiny_lfu note_freq
    note_access stamp inc dec dec_old set_seg cache_insert cache_remove evict_one best_from best_by
    lower lower2 not_lower seg_eq is_in is_exempt in_seg stamps_of oldest_in freq_of trim push_ghost
    demote demote_overflow segmented_hit hit_under on_hit next_need wait choose expect_victim
    simple_victim or_else main_victim simple_miss pinned_hot_miss slru_miss two_q_victim two_q_evict
    two_q_miss admit_candidate contest w_tiny_lfu_miss miss_under on_miss pct shares is_optimal
    new_cache ranks_before insert_ranked ranked experts_of pin_hot end_of_step count_demand
    count_hit count_miss note_first arrive serve_hit serve_miss serve_demand demand_all replay
    static_step static_run no_residency simulate_cached simulate_static simulate_policy simulate
    avoidable_misses expert_le insert_sorted sort_unstable dedup_after dedup distinct_of unpinned
    expert_eq contains lookup insert remove without
pinned_hot_overflows = refl

simulate-IsTally_example :
    IsTally 10 (demands three_steps) (firsts Policy.lru three_steps) lru_result
simulate-IsTally_example = simulate-IsTally three_steps 3 Policy.lru 10 lru_run

abbrev slots : ℕ
slots = 3

simulate_total_example :
    (answer : Result SimError Residency) × (simulate three_steps slots (Policy.slru 50) 10
      ≡ some answer)
    × (slots ≢ 0
        → peak_step_demand three_steps ≤ slots
        → is_static (Policy.slru 50) ≡ false
        → (s : Residency) × (answer ≡ ok s))
simulate_total_example = simulate_total three_steps slots (Policy.slru 50) 10

after-next_after_example :
    after (build three_steps) (at 0 1) 0 ≡ next_after (at 0 1) 0 0 three_steps.steps
after-next_after_example = after-next_after three_steps (at 0 1) 0

-- Two slots, both taken.
abbrev one_taken : Cache
one_taken = cache_insert (new_cache 2 Policy.lru three_steps) (at 0 1) Seg.protected

abbrev both_taken : Cache
both_taken = cache_insert one_taken (at 1 4) Seg.protected

one_taken-IsWhole : IsWhole one_taken
unfolding new_cache shares NoDup contains
one_taken-IsWhole =
    (insert-Admits Seg.protected
      (IsWhole-Admits (at 0 1) (record { agree = λ x. refl; distinct = tt })) refl).whole

both_taken-IsWhole : IsWhole both_taken
unfolding new_cache shares cache_insert inc contains expert_eq
both_taken-IsWhole =
    (insert-Admits Seg.protected (IsWhole-Admits (at 1 4) one_taken-IsWhole) refl).whole

abbrev needed : List ExpertRef
needed = at 0 2 ∷ at 1 4 ∷ []

both_taken-IsPinned : IsPinned both_taken needed (at 0 2)
unfolding new_cache shares cache_insert inc contains expert_eq
both_taken-IsPinned = record { here = refl; few = omega arith }

outside : contains both_taken.resident (at 0 2) ≡ false
unfolding new_cache shares cache_insert inc contains expert_eq
outside = refl

both_fit : length both_taken.resident ≤ both_taken.capacity
unfolding new_cache shares cache_insert inc
both_fit = omega arith

lru-IsUndivided : IsUndivided both_taken.policy both_taken.next_use
unfolding new_cache cache_insert inc IsUndivided
lru-IsUndivided = tt

on_miss-Serves_example :
    (d : Cache) × (on_miss both_taken (at 0 2) needed 1 ≡ some d)
    × Serves both_taken d (at 0 2) needed
on_miss-Serves_example =
    on_miss-Serves 1 both_taken-IsWhole both_taken-IsPinned outside both_fit lru-IsUndivided

served :
    (d : Cache) × (on_miss both_taken (at 0 2) needed 1 ≡ some d)
    × Serves both_taken d (at 0 2) needed
served = on_miss-Serves 1 both_taken-IsWhole both_taken-IsPinned outside both_fit lru-IsUndivided

on_miss-Admits_example : Admits (at 0 2) both_taken served.0
on_miss-Admits_example = on_miss-Admits needed 1 both_taken-IsWhole outside served.1

-- Both residents are protected, there is room for one, and the step needs the other.
abbrev crowded : Cache
crowded = record both_taken { protected_cap = 1 }

demotes_one : lookup (at 0 1) (demote_overflow crowded (at 1 4 ∷ [])).seg ≡ some Seg.probation
unfolding new_cache shares cache_insert set_insert inc dec dec_old set_seg stamp demote
    demote_overflow oldest_in best_by best_from lower stamps_of count_of in_seg is_in is_exempt
    seg_eq expert_eq contains lookup insert
demotes_one = refl
