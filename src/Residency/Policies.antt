-- ===== src/Residency/Policies.antt =====
-- What each policy does on a hit and on a miss. `none` is a panic.
use mo_earc.Common.{
  ℕ, zero, suc, ◌%◌, add32, sub32, u64_max, ltb, leb, if◌then◌else◌, Option, none, some, List,
  length, contains, lookup, without,
}
use mo_earc.Cache.Types.{ExpertRef, expert_ref_eq}
use mo_earc.Cache.Pool.{unpinned}
use mo_earc.Residency.Types.{Policy, Seg, Order, NextUse, Cache}
use mo_earc.Residency.NextUse.{after}
use mo_earc.Residency.Segments.{
  count_of, stamp, set_seg, cache_insert, cache_remove, evict_one, best_by, lower, lower2,
  not_lower, is_in, oldest_in, freq_of, push_ghost,
}

-- The `while` of `demote_overflow`, with a round of fuel for each resident.
unfoldable pub demote : ℕ → List ExpertRef → Cache → Cache
demote zero pinned c = c
demote (suc fuel) pinned c =
    if ltb c.protected_cap c.n_protected
    then elim (oldest_in c Seg.protected pinned Order.recency none) [
      | none ↦ c
      | some v ↦ demote fuel pinned (stamp (set_seg c v Seg.probation) v)
    ]
    else c

unfoldable pub demote_overflow : Cache → List ExpertRef → Cache
demote_overflow c pinned = demote (length c.resident) pinned c

-- A hit under SLRU and W-TinyLFU.
unfoldable pub segmented_hit : Cache → ExpertRef → List ExpertRef → Cache
segmented_hit c e pinned = elim (lookup e c.seg) [
  | none ↦ c
  | some s ↦ elim s [
    | Seg.probation ↦ demote_overflow (stamp (set_seg c e Seg.protected) e) pinned
    | Seg.window ↦ stamp c e
    | Seg.protected ↦ stamp c e
  ]
]

unfoldable pub hit_under : Policy → Cache → ExpertRef → List ExpertRef → Cache
hit_under (Policy.slru p) c e pinned = segmented_hit c e pinned
hit_under (Policy.w_tiny_lfu w p) c e pinned = segmented_hit c e pinned
hit_under (Policy.two_q i o) c e pinned = if is_in c Seg.protected e then stamp c e else c
hit_under other c e pinned = c

unfoldable pub on_hit : Cache → ExpertRef → List ExpertRef → Cache
on_hit c e pinned = hit_under c.policy c e pinned

-- `nu.after(*e, step_idx).unwrap_or(usize::MAX)`
unfoldable pub next_need : NextUse → ℕ → ExpertRef → ℕ
next_need nu step_idx e = elim (after nu e step_idx) [ none ↦ u64_max | some i ↦ i ]

-- How many blocks forward until the expert's block comes round again.
unfoldable pub wait : ℕ → ℕ → ExpertRef → ℕ
wait n here e = add32 (sub32 (sub32 (add32 e.layer n) here) 1 % n) 1

-- The least or greatest of the candidates, for the undivided policies; for the others the source is
-- `unreachable!`.
unfoldable pub choose : Policy → Cache → ℕ → ℕ → List ExpertRef → Option (Option ExpertRef)
choose Policy.lru c step_idx block es = some (best_by (lower (count_of c.last_used)) es)
choose Policy.lfu c step_idx block es = some (best_by (lower (count_of c.use_count)) es)
choose Policy.optimal c step_idx block es = elim c.next_use [
  | none ↦ none
  | some nu ↦ some (best_by (not_lower (next_need nu step_idx)) es)
]
choose (Policy.lru_k k) c step_idx block es = some (
    if leb k 1
    then best_by (lower (count_of c.last_used)) es
    else best_by (lower2 (count_of c.prev_used) (count_of c.last_used)) es)
choose Policy.phase_lru c step_idx block es =
    some
      (best_by (lower2 (count_of c.step_used) (λ e. sub32 c.n_layers (wait c.n_layers block e))) es)
choose other c step_idx block es = none

-- `Some(victim.expect(…))`
unfoldable pub expect_victim : Option (Option ExpertRef) → Option (Option ExpertRef)
expect_victim none = none
expect_victim (some none) = none
expect_victim (some (some v)) = some (some v)

unfoldable pub simple_victim : Cache → List ExpertRef → ℕ → ℕ → Option (Option ExpertRef)
simple_victim c pinned step_idx block =
    if ltb (length c.resident) c.capacity
    then some none
    else expect_victim (choose c.policy c step_idx block (unpinned pinned c.resident))

-- `a.or_else(|| b)`
unfoldable pub or_else : Option ExpertRef → Option ExpertRef → Option ExpertRef
or_else none other = other
or_else (some v) other = some v

-- Probation's oldest, and else Protected's.
unfoldable pub main_victim : Cache → List ExpertRef → Option ExpertRef
main_victim c pinned =
    or_else (oldest_in c Seg.probation pinned Order.recency none)
      (oldest_in c Seg.protected pinned Order.recency none)

unfoldable pub simple_miss : Cache → ExpertRef → List ExpertRef → ℕ → Option Cache
simple_miss c e pinned step_idx = elim (simple_victim c pinned step_idx e.layer) [
  | none ↦ none
  | some victim ↦ some (cache_insert (evict_one c victim) e Seg.protected)
]

-- `filter(|r| !self.hot.contains(r))`, over what is not pinned.
unfoldable pub pinned_hot_miss : Cache → ExpertRef → List ExpertRef → Cache
pinned_hot_miss c e pinned =
    let victim =
      if leb c.capacity (length c.resident)
      then best_by (lower (count_of c.last_used)) (unpinned c.hot (unpinned pinned c.resident))
      else none in
    cache_insert (evict_one c victim) e Seg.protected

unfoldable pub slru_miss : Cache → ExpertRef → List ExpertRef → Cache
slru_miss c e pinned =
    let victim = if leb c.capacity (length c.resident) then main_victim c pinned else none in
    cache_insert (evict_one c victim) e Seg.probation

unfoldable pub two_q_victim : Cache → List ExpertRef → Option ExpertRef
two_q_victim c pinned =
    let from_window = oldest_in c Seg.window pinned Order.arrival none in
    let from_main = oldest_in c Seg.protected pinned Order.recency none in
    if leb c.window_cap c.n_window
    then or_else from_window from_main
    else or_else from_main from_window

-- `if let Some(v) = victim { … }` and `evict_one`.
unfoldable pub two_q_evict : Cache → Option ExpertRef → Cache
two_q_evict c none = c
two_q_evict c (some v) = cache_remove (if is_in c Seg.window v then push_ghost c v else c) v

unfoldable pub two_q_miss : Cache → ExpertRef → List ExpertRef → Cache
two_q_miss c e pinned =
    let promoted = contains c.ghost_set e in
    let taken : Cache = record c { ghost_set = without e c.ghost_set } in
    let room =
      if leb c.capacity (length c.resident)
      then two_q_evict taken (two_q_victim taken pinned)
      else taken in
    cache_insert room e (if promoted then Seg.protected else Seg.window)

-- The candidate moves from the window to the main cache.
unfoldable pub admit_candidate : Cache → ExpertRef → Cache
admit_candidate c cand = stamp (set_seg c cand Seg.probation) cand

-- The contest of the candidate with the main cache's victim.
unfoldable pub contest : Cache → ExpertRef → Option ExpertRef → Cache
contest c cand none = admit_candidate c cand
contest c cand (some v) =
    if ltb (freq_of c v) (freq_of c cand)
    then admit_candidate (cache_remove c v) cand
    else cache_remove c cand

unfoldable pub w_tiny_lfu_miss : Cache → ExpertRef → List ExpertRef → Cache
w_tiny_lfu_miss before e pinned =
    let c = cache_insert before e Seg.window in
    if leb c.n_window c.window_cap
    then c
    else elim (oldest_in c Seg.window pinned Order.recency (some e)) [
      | none ↦ if ltb c.capacity (length c.resident) then evict_one c (main_victim c pinned) else c
      | some cand ↦
          if leb (length c.resident) c.capacity
          then admit_candidate c cand
          else contest c cand (main_victim c pinned)
    ]

unfoldable pub miss_under : Policy → Cache → ExpertRef → List ExpertRef → ℕ → Option Cache
miss_under (Policy.static_split l) c e pinned step_idx = none
miss_under (Policy.pinned_hot p w) c e pinned step_idx = some (pinned_hot_miss c e pinned)
miss_under (Policy.slru p) c e pinned step_idx = some (slru_miss c e pinned)
miss_under (Policy.two_q i o) c e pinned step_idx = some (two_q_miss c e pinned)
miss_under (Policy.w_tiny_lfu w p) c e pinned step_idx = some (w_tiny_lfu_miss c e pinned)
miss_under other c e pinned step_idx = simple_miss c e pinned step_idx

unfoldable pub on_miss : Cache → ExpertRef → List ExpertRef → ℕ → Option Cache
on_miss c e pinned step_idx = miss_under c.policy c e pinned step_idx
