-- ===== src/Residency/Total.antt =====
-- The undivided policies: a miss does not panic, stays within the slots, and takes none of the experts
-- that the step needs.
use mo_earc.Common.{
  ℕ, ◌≤◌, ◌<◌, ◌≡◌, refl, sym, ap, ◌∙◌, arith, Bool, true, false, not, ◌&&◌, ◌||◌, Bool-cases, inl,
  inr, sub32, Option, some, List, [], ◌∷◌, ◌++◌, length, length-append, contains, leb, ltb, ltb→lt,
  ltb→le, contains-append, contains-without, length-without, append_one-NoDup, length-le_of_subset,
  beq_refl, List-cases,
}
use mo_earc.Cache.Types.{ExpertRef, expert_eq_iff, expert_ref_eq}
use mo_earc.Cache.Pool.{unpinned}
use mo_earc.Cache.Victim.{contains-unpinned}
use mo_earc.Residency.Types.{Policy, Seg, NextUse, Cache}
use mo_earc.Residency.Segments.{
  count_of, cache_insert, cache_remove, evict_one, best_from, best_by, lower, lower2, not_lower,
}
use mo_earc.Residency.Policies.{
  next_need, wait, choose, expect_victim, simple_victim, simple_miss, miss_under, on_miss,
}
use mo_earc.Residency.Whole.{IsWhole, cache_remove-Loses, cache_insert-Gains}

-- A step's experts: no more of them than slots, and `e` is one.
pub record IsPinned (c : Cache) (pinned : List ExpertRef) (e : ExpertRef) : Type 0 where
  pub here : contains pinned e ≡ true
  pub few : length pinned ≤ c.capacity

module _ {c : Cache} {e : ExpertRef} {pinned : List ExpertRef} (w : IsWhole c)
    (p : IsPinned c pinned e) (absent : contains c.resident e ≡ false) where
  -- Pinning cannot starve eviction.
  someone_unpinned :
      c.capacity ≤ length c.resident
      → (x : ExpertRef) × (xs : List ExpertRef) × (unpinned pinned c.resident ≡ x ∷ xs)
  unfolding contains
  someone_unpinned full = elim (List-cases (unpinned pinned c.resident)) [
    | inr found ↦ found
    | inl nobody ↦
        let all : (x : ExpertRef)
            → contains (c.resident ++ (e ∷ [])) x ≡ true
            → contains pinned x ≡ true =
          λ x h.
            let h' : (contains c.resident x || contains (e ∷ []) x) ≡ true =
              rw (contains-append c.resident (e ∷ []) x) at h in
            let free : false ≡ (contains c.resident x && not (contains pinned x)) =
              rw nobody at (contains-unpinned pinned c.resident x) in
            ground (arith, expert_eq_iff e x, p.here) in
        let le =
          length-le_of_subset (c.resident ++ (e ∷ [])) pinned
            (append_one-NoDup c.resident e w.distinct absent) all in
        absurd (omega (arith, le, length-append c.resident (e ∷ []), p.few, full))
  ]

best_from-contains :
    (replaces : ExpertRef → ExpertRef → Bool) (best : ExpertRef) (es : List ExpertRef)
    → contains (best ∷ es) (best_from replaces best es) ≡ true
unfolding best_from contains
best_from-contains replaces best [] = rw (beq_refl best) refl
best_from-contains replaces best (e ∷ es) = elim (Bool-cases (replaces e best)) [
  | inl wins ↦ rw (wins, best_from) (ground (arith, best_from-contains replaces e es))
  | inr loses ↦ rw (loses, best_from) (ground (arith, best_from-contains replaces best es))
]

-- One of the candidates is chosen.
pub best_by_total :
    (replaces : ExpertRef → ExpertRef → Bool) (x : ExpertRef) (xs : List ExpertRef)
    → (v : ExpertRef) × (best_by replaces (x ∷ xs) ≡ some v) × (contains (x ∷ xs) v ≡ true)
unfolding best_by
best_by_total replaces x xs = (best_from replaces x xs, refl, best_from-contains replaces x xs)

-- The policies that `simple_victim` is for, and what they need.
unfoldable pub IsUndivided : Policy → Option NextUse → Type 0
IsUndivided Policy.lru nu = Unit
IsUndivided Policy.lfu nu = Unit
IsUndivided Policy.optimal nu = (u : NextUse) × (nu ≡ some u)
IsUndivided (Policy.lru_k k) nu = Unit
IsUndivided Policy.phase_lru nu = Unit
IsUndivided other nu = ⊥

choose_total :
    (p : Policy) (c : Cache) (step_idx block : ℕ) (x : ExpertRef) (xs : List ExpertRef)
    → IsUndivided p c.next_use
    → (v : ExpertRef) × (choose p c step_idx block (x ∷ xs) ≡ some (some v))
      × (contains (x ∷ xs) v ≡ true)
unfolding choose IsUndivided
choose_total Policy.lru c step_idx block x xs u =
    let (v, chosen, inside) = best_by_total (lower (count_of c.last_used)) x xs in
    (v, ap some chosen, inside)
choose_total Policy.lfu c step_idx block x xs u =
    let (v, chosen, inside) = best_by_total (lower (count_of c.use_count)) x xs in
    (v, ap some chosen, inside)
choose_total Policy.optimal c step_idx block x xs (nu, there) =
    let (v, chosen, inside) = best_by_total (not_lower (next_need nu step_idx)) x xs in
    (v, rw there (ap some chosen), inside)
choose_total (Policy.lru_k k) c step_idx block x xs u = elim (Bool-cases (leb k 1)) [
  | inl one ↦
      let (v, chosen, inside) = best_by_total (lower (count_of c.last_used)) x xs in
      (v, rw one (ap some chosen), inside)
  | inr more ↦
      let (v, chosen, inside) =
        best_by_total (lower2 (count_of c.prev_used) (count_of c.last_used)) x xs in
      (v, rw more (ap some chosen), inside)
]
choose_total Policy.phase_lru c step_idx block x xs u =
    let (v, chosen, inside) =
      best_by_total
        (lower2 (count_of c.step_used) (λ r. sub32 c.n_layers (wait c.n_layers block r))) x xs in
    (v, ap some chosen, inside)
choose_total (Policy.static_split l) c step_idx block x xs u = absurd u
choose_total (Policy.slru q) c step_idx block x xs u = absurd u
choose_total (Policy.two_q i o) c step_idx block x xs u = absurd u
choose_total (Policy.pinned_hot q r) c step_idx block x xs u = absurd u
choose_total (Policy.w_tiny_lfu q r) c step_idx block x xs u = absurd u

-- The expert has come in, within the slots, and every expert that the step needs has stayed.
pub record Serves (c d : Cache) (e : ExpertRef) (pinned : List ExpertRef) : Type 0 where
  pub here : contains d.resident e ≡ true
  pub within : length d.resident ≤ d.capacity
  pub stays :
      (x : ExpertRef)
      → contains pinned x ≡ true
      → contains c.resident x ≡ true
      → contains d.resident x ≡ true

insert-Serves :
    (c : Cache) (e : ExpertRef) (s : Seg) (pinned : List ExpertRef)
    → length c.resident < c.capacity
    → Serves c (cache_insert c e s) e pinned
unfolding contains
insert-Serves c e s pinned room =
    let g = cache_insert-Gains c e s in
    record {
      here = rw (g.resident, contains-append c.resident (e ∷ []) e) (ground (arith, beq_refl e));
      within = rw (g.resident, g.capacity, length-append c.resident (e ∷ [])) (omega arith);
      stays = λ x needed h. rw (g.resident, contains-append c.resident (e ∷ []) x) (ground arith);
    }

-- An expert that is not needed makes room.
replace-Serves :
    (c : Cache) (e v : ExpertRef) (s : Seg) (pinned : List ExpertRef)
    → IsWhole c
    → length c.resident ≤ c.capacity
    → contains c.resident v ≡ true
    → contains pinned v ≡ false
    → Serves c (cache_insert (cache_remove c v) e s) e pinned
unfolding contains
replace-Serves c e v s pinned w within resident free =
    let l = cache_remove-Loses c v in
    let shorter = length-without v c.resident w.distinct resident in
    let i =
      insert-Serves (cache_remove c v) e s pinned
        (rw (l.resident, l.capacity) (omega (arith, shorter, within))) in
    record {
      here = i.here;
      within = i.within;
      stays = λ x needed h.
          i.stays x needed
            (rw (l.resident, contains-without v c.resident x) (ground (arith, expert_eq_iff v x)));
    }

unpinned-resident :
    (pinned es : List ExpertRef) (v : ExpertRef) {x : ExpertRef} {xs : List ExpertRef}
    → unpinned pinned es ≡ x ∷ xs
    → contains (x ∷ xs) v ≡ true
    → (contains es v ≡ true) × (contains pinned v ≡ false)
unpinned-resident pinned es v found inside =
    let h : (contains es v && not (contains pinned v)) ≡ true =
      sym (contains-unpinned pinned es v) ∙ ap (λ l. contains l v) found ∙ inside in
    (ground arith, ground arith)

undivided_miss :
    (c : Cache) (e : ExpertRef) (pinned : List ExpertRef) (p : Policy) (nu : Option NextUse)
    (step_idx : ℕ)
    → IsUndivided p nu
    → miss_under p c e pinned step_idx ≡ simple_miss c e pinned step_idx
unfolding miss_under IsUndivided
undivided_miss c e pinned Policy.lru nu i u = refl
undivided_miss c e pinned Policy.lfu nu i u = refl
undivided_miss c e pinned Policy.optimal nu i u = refl
undivided_miss c e pinned (Policy.lru_k k) nu i u = refl
undivided_miss c e pinned Policy.phase_lru nu i u = refl
undivided_miss c e pinned (Policy.static_split l) nu i u = absurd u
undivided_miss c e pinned (Policy.slru q) nu i u = absurd u
undivided_miss c e pinned (Policy.two_q a b) nu i u = absurd u
undivided_miss c e pinned (Policy.pinned_hot q r) nu i u = absurd u
undivided_miss c e pinned (Policy.w_tiny_lfu q r) nu i u = absurd u

module _ {c : Cache} {e : ExpertRef} {pinned : List ExpertRef} where
  pub simple_miss-Serves :
      (step_idx : ℕ)
      → IsWhole c
      → IsPinned c pinned e
      → contains c.resident e ≡ false
      → length c.resident ≤ c.capacity
      → IsUndivided c.policy c.next_use
      → (d : Cache) × (simple_miss c e pinned step_idx ≡ some d) × Serves c d e pinned
  unfolding simple_miss simple_victim expect_victim evict_one
  simple_miss-Serves step_idx w p absent within u =
      elim (Bool-cases (ltb (length c.resident) c.capacity)) [
        | inl room ↦ (
          cache_insert c e Seg.protected,
          rw (room, simple_miss) refl,
          insert-Serves c e Seg.protected pinned (ltb→lt _ _ room),
        )
        | inr full ↦
            let (x, xs, found) = someone_unpinned w p absent (ltb→le _ _ full) in
            let (v, chosen, inside) = choose_total c.policy c step_idx e.layer x xs u in
            let (resident, free) = unpinned-resident pinned c.resident v found inside in
            (
              cache_insert (cache_remove c v) e Seg.protected,
              rw (full, simple_miss) (rw found (rw chosen refl)),
              replace-Serves c e v Seg.protected pinned w within resident free,
            )
      ]

  -- Under LRU, LFU, LRU-K, phase-LRU and, with its table, Belady: where the residents fit the slots, the
  -- list and the set of them agree and have no repetition, and the step needs `e`, which is not
  -- resident, and no more experts than there are slots, a miss does not panic. The expert comes in, the
  -- residents fit the slots, and no resident that the step needs leaves.
  pub on_miss-Serves :
      (step_idx : ℕ)
      → IsWhole c
      → IsPinned c pinned e
      → contains c.resident e ≡ false
      → length c.resident ≤ c.capacity
      → IsUndivided c.policy c.next_use
      → (d : Cache) × (on_miss c e pinned step_idx ≡ some d) × Serves c d e pinned
  unfolding on_miss
  on_miss-Serves step_idx w p absent within u =
      rw (undivided_miss c e pinned c.policy c.next_use step_idx u)
        (simple_miss-Serves step_idx w p absent within u)
