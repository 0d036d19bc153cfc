-- ===== src/Residency/Misses.antt =====
-- What a miss does to the residents, under every policy.
use mo_earc.Common.{
  ℕ, ◌≡◌, refl, Bool, true, false, Bool-cases, inl, inr, if◌then◌else◌, Option, none, some,
  Option-cases, List, length, contains, leb, ltb, without, contains-without,
}
use mo_earc.Cache.Types.{ExpertRef, expert_ref_eq}
use mo_earc.Residency.Types.{Policy, Order, Seg, Cache}
use mo_earc.Residency.Segments.{
  cache_insert, cache_remove, evict_one, push_ghost, oldest_in, is_in, freq_of,
}
use mo_earc.Residency.Policies.{
  simple_miss, simple_victim, pinned_hot_miss, slru_miss, main_victim, two_q_evict, two_q_victim,
  two_q_miss, contest, w_tiny_lfu_miss, miss_under, on_miss,
}
use mo_earc.Residency.Members.{
  Keeps, Keeps-refl, if-Keeps, kept, push_ghost-Keeps, admit_candidate-Keeps,
}
use mo_earc.Residency.Whole.{
  IsWhole, Admits, IsWhole-Admits, Admits-Keeps, remove-Admits, insert-Admits, cache_remove-Loses,
}

-- A miss: the expert is not resident.
module _ {e : ExpertRef} {c : Cache} where
  if-Admits :
      {d d' : Cache} (b : Bool) → Admits e c d → Admits e c d' → Admits e c (if b then d else d')
  if-Admits true h k = h
  if-Admits false h k = k

  pub evict_one-Admits :
      {d : Cache} (o : Option ExpertRef) → Admits e c d → Admits e c (evict_one d o)
  unfolding evict_one
  evict_one-Admits none a = a
  evict_one-Admits (some v) a = remove-Admits v a

  becomes : {d d' : Cache} → Admits e c d → some d ≡ some d' → Admits e c d'
  becomes {d} {d'} a h = let same : d ≡ d' = cc in rw (← same) a

  -- To evict one and then to let the expert in.
  replace-Admits :
      {d : Cache} (o : Option ExpertRef) (s : Seg)
      → Admits e c d
      → contains d.resident e ≡ false
      → Admits e c (cache_insert (evict_one d o) e s)
  unfolding evict_one
  replace-Admits none s a absent = insert-Admits s a absent
  replace-Admits {d} (some v) s a absent =
      insert-Admits s (remove-Admits v a)
        (rw ((cache_remove-Loses d v).resident, contains-without v d.resident e, absent) refl)

  contest-Admits :
      {d : Cache} (cand : ExpertRef) (o : Option ExpertRef)
      → Admits e c d
      → Admits e c (contest d cand o)
  unfolding contest
  contest-Admits {d} cand none a = Admits-Keeps a (admit_candidate-Keeps d cand)
  contest-Admits {d} cand (some v) a =
      if-Admits (ltb (freq_of d v) (freq_of d cand))
        (Admits-Keeps (remove-Admits v a) (admit_candidate-Keeps (cache_remove d v) cand))
        (remove-Admits cand a)

  two_q_Admits :
      {d : Cache} (o : Option ExpertRef) (s : Seg)
      → Admits e c d
      → contains d.resident e ≡ false
      → Admits e c (cache_insert (two_q_evict d o) e s)
  unfolding two_q_evict
  two_q_Admits none s a absent = insert-Admits s a absent
  two_q_Admits {d} (some v) s a absent =
      let k : Keeps d (if is_in d Seg.window v then push_ghost d v else d) =
        if-Keeps (is_in d Seg.window v) (push_ghost-Keeps d v) (Keeps-refl d) in
      unfold evict_one in (replace-Admits (some v) s (Admits-Keeps a k) (rw k.resident absent))

  -- The miss of a divided policy.
  pub pinned_hot_miss-Admits :
      (pinned : List ExpertRef)
      → IsWhole c
      → contains c.resident e ≡ false
      → Admits e c (pinned_hot_miss c e pinned)
  unfolding pinned_hot_miss
  pinned_hot_miss-Admits pinned w absent =
      replace-Admits _ Seg.protected (IsWhole-Admits e w) absent

  pub slru_miss-Admits :
      (pinned : List ExpertRef)
      → IsWhole c
      → contains c.resident e ≡ false
      → Admits e c (slru_miss c e pinned)
  unfolding slru_miss
  slru_miss-Admits pinned w absent = replace-Admits _ Seg.probation (IsWhole-Admits e w) absent

  two_q_miss-Admits :
      (pinned : List ExpertRef)
      → IsWhole c
      → contains c.resident e ≡ false
      → Admits e c (two_q_miss c e pinned)
  unfolding two_q_miss
  two_q_miss-Admits pinned w absent =
      let taken : Cache = record c { ghost_set = without e c.ghost_set } in
      let a : Admits e c taken =
        Admits-Keeps (IsWhole-Admits e w) (kept refl refl refl refl refl) in
      let s : Seg = if contains c.ghost_set e then Seg.protected else Seg.window in
      elim (Bool-cases (leb c.capacity (length c.resident))) [
        | inl full ↦ rw full (two_q_Admits (two_q_victim taken pinned) s a absent)
        | inr room ↦ rw room (insert-Admits s a absent)
      ]

  w_tiny_lfu_miss-Admits :
      (pinned : List ExpertRef)
      → IsWhole c
      → contains c.resident e ≡ false
      → Admits e c (w_tiny_lfu_miss c e pinned)
  unfolding w_tiny_lfu_miss
  w_tiny_lfu_miss-Admits pinned w absent =
      let d : Cache = cache_insert c e Seg.window in
      let a : Admits e c d = insert-Admits Seg.window (IsWhole-Admits e w) absent in
      if-Admits (leb d.n_window d.window_cap) a
        (elim (Option-cases (oldest_in d Seg.window pinned Order.recency (some e))) [
          | inl nobody ↦ rw nobody (
              if-Admits (ltb d.capacity (length d.resident))
                (evict_one-Admits (main_victim d pinned) a) a)
          | inr (cand, found) ↦ rw found (
              if-Admits (leb (length d.resident) d.capacity)
                (Admits-Keeps a (admit_candidate-Keeps d cand))
                (contest-Admits cand (main_victim d pinned) a))
        ])

  simple_miss-Admits :
      (pinned : List ExpertRef) (step_idx : ℕ) {d : Cache}
      → IsWhole c
      → contains c.resident e ≡ false
      → simple_miss c e pinned step_idx ≡ some d
      → Admits e c d
  unfolding simple_miss
  simple_miss-Admits pinned step_idx {d} w absent h =
      by_victim (simple_victim c pinned step_idx e.layer) h
    where
      by_victim :
          (o : Option (Option ExpertRef))
          → (elim o as (λ x. Option Cache) [
            | none ↦ none
            | some victim ↦ some (cache_insert (evict_one c victim) e Seg.protected)
          ])
            ≡ some d
          → Admits e c d
      by_victim none k = cc
      by_victim (some victim) k =
          becomes (replace-Admits victim Seg.protected (IsWhole-Admits e w) absent) k

  miss_under-Admits :
      (p : Policy) (pinned : List ExpertRef) (step_idx : ℕ) {d : Cache}
      → IsWhole c
      → contains c.resident e ≡ false
      → miss_under p c e pinned step_idx ≡ some d
      → Admits e c d
  unfolding miss_under
  miss_under-Admits Policy.lru pinned step_idx w absent h =
      simple_miss-Admits pinned step_idx w absent h
  miss_under-Admits Policy.lfu pinned step_idx w absent h =
      simple_miss-Admits pinned step_idx w absent h
  miss_under-Admits Policy.optimal pinned step_idx w absent h =
      simple_miss-Admits pinned step_idx w absent h
  miss_under-Admits (Policy.static_split l) pinned step_idx w absent h = cc
  miss_under-Admits (Policy.slru p) pinned step_idx w absent h =
      becomes (slru_miss-Admits pinned w absent) h
  miss_under-Admits (Policy.two_q i o) pinned step_idx w absent h =
      becomes (two_q_miss-Admits pinned w absent) h
  miss_under-Admits (Policy.lru_k k) pinned step_idx w absent h =
      simple_miss-Admits pinned step_idx w absent h
  miss_under-Admits (Policy.pinned_hot p u) pinned step_idx w absent h =
      becomes (pinned_hot_miss-Admits pinned w absent) h
  miss_under-Admits Policy.phase_lru pinned step_idx w absent h =
      simple_miss-Admits pinned step_idx w absent h
  miss_under-Admits (Policy.w_tiny_lfu u p) pinned step_idx w absent h =
      becomes (w_tiny_lfu_miss-Admits pinned w absent) h

  -- Under every policy, a miss of an expert that is not resident keeps the list and the set of residents
  -- in agreement and without repetition, and lets in that expert at most.
  pub on_miss-Admits :
      (pinned : List ExpertRef) (step_idx : ℕ) {d : Cache}
      → IsWhole c
      → contains c.resident e ≡ false
      → on_miss c e pinned step_idx ≡ some d
      → Admits e c d
  unfolding on_miss
  on_miss-Admits pinned step_idx w absent h = miss_under-Admits c.policy pinned step_idx w absent h
