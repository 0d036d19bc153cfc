-- ===== src/Kv/Finish.antt =====
-- `append` and `end` keep the pool in order, `end` gives back what `begin` took, and a second
-- `begin` of an active sequence loses its pages.
use mo_earc.Common.{
  ℕ, ◌+◌, ◌≤◌, ◌<◌, ◌≡◌, ◌≢◌, refl, sym, ap, ◌∙◌, arith, ◌==◌, Bool-cases, inl, inr, none, some, [],
  ◌∷◌, ◌++◌, length, length-append, lookup, remove, nat_eq, Option-cases, leb, lookup-insert,
  lookup-remove, insert-Distinct, remove-Distinct, total, total-insert_known, total-remove,
  beq_refl,
}
use mo_earc.Kv.Types.{KvError, ok, err, SeqPages, PagedKvCache}
use mo_earc.Kv.Pages.{begin, append, end, page_count}
use mo_earc.Kv.Invariant.{occurrences, occurrences-append, held_in, owned, Covers, IsPool}
use mo_earc.Kv.Begin.{begin-IsBegun}
use mo_earc.Kv.Append.{IsAppended, Appends, append-Appends}

err≢ok : {T : Type 0} {e : KvError} {x : T} → err e ≡ ok x → ⊥
err≢ok h = cc

-- What `append` moves: a page from the free ones to the table, or none.
record IsGrown (kv : PagedKvCache) (s : SeqPages) (kv' : PagedKvCache) (s' : SeqPages)
    : Type 0 where
  pages_kept :
      (p : ℕ)
      → occurrences p kv'.free + occurrences p s'.pages
        ≡ occurrences p kv.free + occurrences p s.pages
  count_kept : length kv'.free + length s'.pages ≡ length kv.free + length s.pages
  covers : Covers kv s'

IsAppended-IsGrown :
    (kv : PagedKvCache) (seq : ℕ) (s : SeqPages) (kv' : PagedKvCache) (page slot : ℕ)
    → Covers kv s
    → s.tokens < kv.context_limit
    → (a : IsAppended kv seq s kv' page slot) → IsGrown kv s kv' a.s'
unfolding occurrences
IsAppended-IsGrown kv seq s kv' page slot c below a = elim a.grown [
  | inl (same, free_same, fits) ↦ record {
    pages_kept = λ p. rw (same, free_same) refl;
    count_kept = rw (same, free_same) refl;
    covers = rw (same, a.counted) (omega arith);
  }
  | inr (longer, free_split, at_end) ↦ record {
    pages_kept = λ p. rw (longer, free_split, occurrences-append p s.pages (page ∷ [])) (moved p);
    count_kept = rw (longer, free_split) (omega (arith, length-append s.pages (page ∷ [])));
    covers = rw (longer, a.counted, length-append s.pages (page ∷ [])) (omega arith);
  }
]
  where
    moved :
        (p : ℕ)
        → occurrences p kv'.free + (occurrences p s.pages + occurrences p (page ∷ []))
          ≡ occurrences p (page ∷ kv'.free) + occurrences p s.pages
    moved p = ground arith

IsAppended-IsPool :
    (kv : PagedKvCache) (seq : ℕ) (s : SeqPages) (kv' : PagedKvCache) (page slot : ℕ)
    → IsPool kv
    → lookup seq kv.seqs ≡ some s
    → s.tokens < kv.context_limit
    → IsAppended kv seq s kv' page slot
    → IsPool kv'
IsAppended-IsPool kv seq s kv' page slot v active below a =
    let g = IsAppended-IsGrown kv seq s kv' page slot (v.covers seq s active) below a in
    let (page_same, limit_same, total_same) = a.settings in
    record {
      page_pos = rw page_same v.page_pos;
      distinct = rw a.updated (insert-Distinct seq a.s' kv.seqs v.distinct);
      owned_once = λ p.
          rw (a.updated, total_same)
            (omega (
              arith,
              v.owned_once p,
              g.pages_kept p,
              total-insert_known (held_in p) seq a.s' s kv.seqs active,
            ));
      balance =
          rw (a.updated, total_same)
            (omega (
              arith,
              v.balance,
              g.count_kept,
              total-insert_known page_count seq a.s' s kv.seqs active,
            ));
      covers = λ q t at.
          rw (page_same, limit_same)
            (elim (Bool-cases (seq == q)) [
              | inl same ↦
                  let e : a.s' ≡ t = ground (arith, lookup-insert seq q a.s' kv.seqs, a.updated) in
                  rw (← e) g.covers
              | inr differ ↦
                  v.covers q t (ground (arith, lookup-insert seq q a.s' kv.seqs, a.updated))
            ]);
    }

-- An `append` that succeeds is to an active sequence below the context limit.
append-active :
    (kv : PagedKvCache) (seq : ℕ) {kv' : PagedKvCache} {page slot : ℕ}
    → append kv seq ≡ ok (kv', page, slot)
    → (s : SeqPages) × (lookup seq kv.seqs ≡ some s) × (s.tokens < kv.context_limit)
unfolding append
append-active kv seq h = elim (Option-cases (lookup seq kv.seqs)) [
  | inl nobody ↦ absurd (err≢ok (rw (nobody, append) at h))
  | inr (s, active) ↦ elim (Bool-cases (leb kv.context_limit s.tokens)) [
    | inl full ↦ absurd (err≢ok (rw (active, full, append) at h))
    | inr room ↦ (s, active, ground arith)
  ]
]

-- Where the pool is in order and `append` succeeds, for any sequence, the pool is in order afterwards.
pub append-IsPool :
    (kv : PagedKvCache) (seq : ℕ) (kv' : PagedKvCache) (page slot : ℕ)
    → IsPool kv
    → append kv seq ≡ ok (kv', page, slot)
    → IsPool kv'
unfolding Appends
append-IsPool kv seq kv' page slot v ran =
    let (s, active, below) = append-active kv seq ran in
    elim (append-Appends kv seq s v active below) [
      | inl (broke, empty) ↦ absurd (err≢ok (sym broke ∙ ran))
      | inr (kv2, page2, slot2, ran2, a) ↦
          let same : kv2 ≡ kv' = cc in
          rw (← same) (IsAppended-IsPool kv seq s kv2 page2 slot2 v active below a)
    ]

-- What `end` does.
pub record IsEnded (kv : PagedKvCache) (seq : ℕ) (kv' : PagedKvCache) (n : ℕ) : Type 0 where
  pub pool : IsPool kv'
  pub gone : lookup seq kv'.seqs ≡ none
  pub returned : length kv'.free ≡ length kv.free + n
  pub others : (q : ℕ) → q ≢ seq → lookup q kv'.seqs ≡ lookup q kv.seqs

-- Ending an active sequence succeeds: its pages go back to the pool, which stays in order, and no
-- other sequence changes.
pub end-IsEnded :
    (kv : PagedKvCache) (seq : ℕ) (s : SeqPages)
    → IsPool kv
    → lookup seq kv.seqs ≡ some s
    → (kv' : PagedKvCache) × (end kv seq ≡ ok (kv', length s.pages))
      × IsEnded kv seq kv' (length s.pages)
unfolding end
end-IsEnded kv seq s v active = (
  record kv { free = s.pages ++ kv.free; seqs = remove seq kv.seqs },
  rw (active, end) refl,
  record {
    pool = record {
      page_pos = v.page_pos;
      distinct = remove-Distinct seq kv.seqs v.distinct;
      owned_once = λ p. owned_ended p ∙ v.owned_once p;
      balance = omega (
        arith,
        v.balance,
        length-append s.pages kv.free,
        total-remove page_count seq s kv.seqs v.distinct active,
      );
      covers = λ q t at. v.covers q t (ground (arith, lookup-remove seq q kv.seqs));
    };
    gone = rw (lookup-remove seq seq kv.seqs, beq_refl seq) refl;
    returned = omega (arith, length-append s.pages kv.free);
    others = λ q ne. ground (arith, lookup-remove seq q kv.seqs);
  },
)
  where
    owned_ended :
        (p : ℕ)
        → occurrences p (s.pages ++ kv.free) + total (held_in p) (remove seq kv.seqs) ≡ owned p kv
    owned_ended p = omega (
      arith,
      occurrences-append p s.pages kv.free,
      total-remove (held_in p) seq s kv.seqs v.distinct active,
    )

-- A `begin` of a sequence that is active loses its old pages: they are neither free nor held.
pub begin_active-owned :
    (kv : PagedKvCache) (seq tokens p : ℕ) (old : SeqPages) {kv' : PagedKvCache} {s : SeqPages}
    → IsPool kv
    → lookup seq kv.seqs ≡ some old
    → 0 < occurrences p old.pages
    → begin kv seq tokens ≡ ok (kv', s)
    → owned p kv' ≡ 0
begin_active-owned kv seq tokens p old {kv'} {s} v active held h =
    let b = begin-IsBegun kv seq tokens h in
    let once : owned p kv ≤ 1 = ground (arith, v.owned_once p) in
    rw b.result (
      omega (
        arith,
        once,
        ap (occurrences p) b.free_split,
        occurrences-append p s.pages kv'.free,
        total-insert_known (held_in p) seq s old kv.seqs active,
      ))
