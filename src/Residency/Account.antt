-- ===== src/Residency/Account.antt =====
-- The counters of a replay: hits, misses, first uses and bytes, against the demands so far.
use mo_earc.Common.{
  ℕ, ◌+◌, ◌*◌, ◌%◌, ◌≤◌, ◌≡◌, refl, sym, ◌∙◌, arith, true, false, ◌||◌, Bool-cases, inl, inr,
  u64_max, add64, Option, none, some, List, [], ◌∷◌, ◌++◌, length, length-append, contains, NoDup,
  contains-append,
}
use mo_earc.Cache.Types.{ExpertRef, expert_eq, expert_eq_iff, expert_ref_eq}
use mo_earc.Residency.Types.{Residency, Cache}
use mo_earc.Residency.Segments.{note_access}
use mo_earc.Residency.Policies.{on_miss}
use mo_earc.Residency.Simulate.{
  Run, count_demand, count_hit, count_miss, note_first, arrive, serve_hit, serve_miss,
}
use mo_earc.Residency.Members.{Keeps, Keeps-trans, note_access-Keeps, on_hit-Keeps}
use mo_earc.Residency.Whole.{IsWhole, Keeps-IsWhole, Admits}
use mo_earc.Residency.Misses.{on_miss-Admits}

-- The counters add up, for this many demands, first uses among them.
pub record IsTally (per n firsts : ℕ) (s : Residency) : Type 0 where
  pub demands : s.demands ≡ n
  pub split : s.hits + s.misses ≡ n
  pub first : s.compulsory_misses ≡ firsts
  pub first_le : s.compulsory_misses ≤ s.misses
  pub bytes : s.bytes_fetched ≡ (s.misses * per) % (u64_max + 1)

-- A run that has served the demands `seen`.
pub record Counted (per : ℕ) (seen : List ExpertRef) (r : Run) : Type 0 where
  pub whole : IsWhole r.cache
  pub known : (x : ExpertRef) → contains r.cache.resident x ≡ true → contains r.ever_seen x ≡ true
  pub once : NoDup r.ever_seen
  pub same : (x : ExpertRef) → contains r.ever_seen x ≡ contains seen x
  pub tally : IsTally per (length seen) (length r.ever_seen) r.stats

add_bytes :
    (misses per : ℕ)
    → add64 ((misses * per) % (u64_max + 1)) per ≡ ((misses + 1) * per) % (u64_max + 1)
add_bytes misses per = grind arith

pub IsTally-hit :
    {per n firsts : ℕ} {s : Residency}
    → IsTally per n firsts s
    → IsTally per (n + 1) firsts (count_hit (count_demand s))
unfolding count_hit count_demand
IsTally-hit t = record {
  demands = omega (arith, t.demands);
  split = omega (arith, t.split);
  first = t.first;
  first_le = t.first_le;
  bytes = t.bytes;
}

pub IsTally-miss :
    {per n firsts : ℕ} {s : Residency}
    → IsTally per n firsts s
    → IsTally per (n + 1) firsts (count_miss per (count_demand s))
unfolding count_miss count_demand
IsTally-miss {per} {n} {firsts} {s} t = record {
  demands = omega (arith, t.demands);
  split = omega (arith, t.split);
  first = t.first;
  first_le = omega (arith, t.first_le);
  bytes = rw t.bytes (add_bytes s.misses per);
}

-- What `ever_seen` says of the expert, and what it then holds.
note_first-IsTally :
    {per n : ℕ} (r : Run) (s : Residency) (e : ExpertRef)
    → IsTally per n (length r.ever_seen) s
    → IsTally per
        (n + 1)
        (length (note_first (record r { stats = count_miss per (count_demand s) }) e).ever_seen)
        (note_first (record r { stats = count_miss per (count_demand s) }) e).stats
unfolding note_first count_miss count_demand
note_first-IsTally {per} r s e t =
    let bytes : add64 s.bytes_fetched per ≡ ((s.misses + 1) * per) % (u64_max + 1) =
      rw t.bytes (add_bytes s.misses per) in
    elim (Bool-cases (contains r.ever_seen e)) [
      | inl known ↦
          rw (known, note_first)
            (record {
              demands = omega (arith, t.demands);
              split = omega (arith, t.split);
              first = t.first;
              first_le = omega (arith, t.first_le);
              bytes = bytes;
            })
      | inr new ↦
          rw (new, note_first)
            (record {
              demands = omega (arith, t.demands);
              split = omega (arith, t.split);
              first = omega (arith, t.first);
              first_le = omega (arith, t.first_le);
              bytes = bytes;
            })
    ]

note_first-NoDup : (r : Run) (e : ExpertRef) → NoDup r.ever_seen → NoDup (note_first r e).ever_seen
unfolding note_first NoDup
note_first-NoDup r e once = elim (Bool-cases (contains r.ever_seen e)) [
  | inl known ↦ rw (known, note_first) once
  | inr new ↦ rw (new, note_first) (new, once)
]

note_first-contains :
    (r : Run) (e x : ExpertRef)
    → contains (note_first r e).ever_seen x ≡ (contains r.ever_seen x || expert_eq e x)
unfolding note_first contains
note_first-contains r e x = elim (Bool-cases (contains r.ever_seen e)) [
  | inl known ↦ rw (known, note_first) (ground (arith, expert_eq_iff e x))
  | inr new ↦ rw (new, note_first) (ground arith)
]

pub note_first-cache : (r : Run) (e : ExpertRef) → (note_first r e).cache ≡ r.cache
unfolding note_first
note_first-cache r e = elim (Bool-cases (contains r.ever_seen e)) [
  | inl known ↦ rw (known, note_first) refl
  | inr new ↦ rw (new, note_first) refl
]

-- One more demand at the end.
contains-snoc :
    (seen : List ExpertRef) (e x : ExpertRef)
    → contains (seen ++ (e ∷ [])) x ≡ (contains seen x || expert_eq e x)
unfolding contains
contains-snoc seen e x = rw (contains-append seen (e ∷ []) x) (ground arith)

-- What a miss makes of the run, once the policy has made `d` of the cache.
abbrev missing : ℕ → Run → ExpertRef → Run
missing per r e = record (arrive r e) { stats = count_miss per (arrive r e).stats }

missed : ℕ → Run → ExpertRef → Cache → Run
missed per r e d = record (note_first (missing per r e) e) { cache = d }

module _ {per : ℕ} {seen : List ExpertRef} {r : Run} (e : ExpertRef) (pinned : List ExpertRef) where
  pub serve_hit-Counted :
      Counted per seen r
      → contains (arrive r e).cache.member e ≡ true
      → Counted per (seen ++ (e ∷ [])) (serve_hit (arrive r e) e pinned)
  unfolding serve_hit arrive
  serve_hit-Counted c resident =
      let k = note_access-Keeps r.cache e (r.clock + 1) in
      let k' = Keeps-trans k (on_hit-Keeps (note_access r.cache e (r.clock + 1)) e pinned) in
      let seen_before : contains r.ever_seen e ≡ true =
        c.known e (sym (c.whole.agree e) ∙ (rw k.member at resident)) in
      record {
        whole = Keeps-IsWhole k' c.whole;
        known = λ x h. c.known x (rw k'.resident at h);
        once = c.once;
        same = λ x. rw (contains-snoc seen e x) (ground (arith, c.same x, expert_eq_iff e x));
        tally = rw (length-append seen (e ∷ [])) (IsTally-hit c.tally);
      }

  missed-Counted :
      (m d : Cache)
      → Keeps r.cache m
      → Admits e m d
      → Counted per seen r
      → Counted per (seen ++ (e ∷ [])) (missed per r e d)
  unfolding missed arrive count_miss
  missed-Counted m d k a c =
      let base = missing per r e in
      record {
        whole = a.whole;
        known = λ x h.
            let h' = a.old x h in
            rw (note_first-contains base e x) (elim (Bool-cases (expert_eq e x)) [
              | inl same ↦ ground arith
              | inr differ ↦
                  let was : contains m.resident x ≡ true = ground arith in
                  let before = c.known x (rw k.resident at was) in ground arith
            ]);
        once = note_first-NoDup base e c.once;
        same = λ x. rw (note_first-contains base e x, contains-snoc seen e x, c.same x) refl;
        tally =
            rw (length-append seen (e ∷ [])) (note_first-IsTally (arrive r e) r.stats e c.tally);
      }

  pub serve_miss-Counted :
      (step_idx : ℕ) {r' : Run}
      → Counted per seen r
      → contains (arrive r e).cache.member e ≡ false
      → serve_miss per pinned step_idx (arrive r e) e ≡ some r'
      → Counted per (seen ++ (e ∷ [])) r'
  unfolding serve_miss missed arrive
  serve_miss-Counted step_idx {r'} c absent h =
      by_cache (on_miss noted.cache e pinned step_idx) refl h
    where
      noted : Run
      noted = note_first (missing per r e) e

      k : Keeps r.cache noted.cache
      k = rw (note_first-cache (missing per r e) e) (note_access-Keeps r.cache e (r.clock + 1))

      by_cache :
          (o : Option Cache)
          → on_miss noted.cache e pinned step_idx ≡ o
          → (elim o as (λ x. Option Run) [
            | none ↦ none
            | some d ↦ some (record noted { cache = d })
          ])
            ≡ some r'
          → Counted per (seen ++ (e ∷ [])) r'
      by_cache none ran eq = cc
      by_cache (some d) ran eq =
          let w = Keeps-IsWhole k c.whole in
          let outside : contains noted.cache.resident e ≡ false =
            sym (w.agree e) ∙ rw (note_first-cache (missing per r e) e) absent in
          let same : missed per r e d ≡ r' = cc in
          rw (← same)
            (missed-Counted noted.cache d k (on_miss-Admits pinned step_idx w outside ran) c)
