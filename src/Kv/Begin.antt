-- ===== src/Kv/Begin.antt =====
-- `begin` and `can_admit`: when they succeed, and that the pool stays in order.
use mo_earc.Common.{
  ℕ, ◌+◌, ◌≤◌, ◌<◌, ◌≡◌, ◌↔◌, refl, sym, ap, ◌∙◌, arith, true, ◌==◌, le→ltb, Bool-cases, inl, inr,
  none, some, ◌++◌, length, length-append, lookup, insert, nat_eq, lookup-insert, insert-Distinct,
  total, total-insert_new, div_ceil, div_ceil_bounds,
}
use mo_earc.Kv.Types.{Outcome, ok, SeqPages, PagedKvCache}
use mo_earc.Kv.Pages.{begin, can_admit, page_count}
use mo_earc.Kv.Invariant.{
  occurrences, occurrences-append, held_in, owned, Covers, IsPool, pop_pages_total,
}

-- What `begin` does when it succeeds: the first free pages become the sequence's.
pub record IsBegun (kv : PagedKvCache) (seq tokens : ℕ) (kv' : PagedKvCache) (s : SeqPages)
    : Type 0 where
  pub free_split : kv.free ≡ s.pages ++ kv'.free
  pub tokens_eq : s.tokens ≡ tokens
  pub pages_eq : length s.pages ≡ div_ceil tokens kv.page_tokens
  pub result : kv' ≡ record kv { free = kv'.free; seqs = insert seq s kv.seqs }
  pub within_limit : tokens ≤ kv.context_limit

begin_run :
    (kv : PagedKvCache) (seq tokens : ℕ)
    → tokens ≤ kv.context_limit
    → div_ceil tokens kv.page_tokens ≤ length kv.free
    → (kv' : PagedKvCache) × (s : SeqPages) × (begin kv seq tokens ≡ ok (kv', s))
      × IsBegun kv seq tokens kv' s
unfolding begin
begin_run kv seq tokens limit room =
    let needed = div_ceil tokens kv.page_tokens in
    let (pages, rest, popped, len, split) = pop_pages_total needed kv.free room in
    let s : SeqPages = record { pages = pages; tokens = tokens } in
    (
      record kv { free = rest; seqs = insert seq s kv.seqs },
      s,
      rw (le→ltb tokens kv.context_limit limit, le→ltb needed (length kv.free) room)
          (rw popped refl),
      record {
        free_split = split;
        tokens_eq = refl;
        pages_eq = len;
        result = refl;
        within_limit = limit;
      },
    )

begin-parts :
    (kv : PagedKvCache) (seq tokens : ℕ) {kv' : PagedKvCache} {s : SeqPages}
    → begin kv seq tokens ≡ ok (kv', s)
    → (tokens ≤ kv.context_limit) × (div_ceil tokens kv.page_tokens ≤ length kv.free)
unfolding begin
begin-parts kv seq tokens h = ground arith

-- Whatever `begin` returns is begun.
pub begin-IsBegun :
    (kv : PagedKvCache) (seq tokens : ℕ) {kv' : PagedKvCache} {s : SeqPages}
    → begin kv seq tokens ≡ ok (kv', s)
    → IsBegun kv seq tokens kv' s
begin-IsBegun kv seq tokens {kv'} {s} h =
    let (limit, room) = begin-parts kv seq tokens h in
    let (kv₁, s₁, ran, begun) = begin_run kv seq tokens limit room in
    let same : ok (kv₁, s₁) ≡ answer (kv', s) = sym ran ∙ h in
    let kv_same : kv₁ ≡ kv' = cc in let s_same : s₁ ≡ s = cc in rw (← kv_same, ← s_same) begun
  where
    answer : PagedKvCache × SeqPages → Outcome (PagedKvCache × SeqPages)
    answer a = ok a

can_admit-parts :
    (kv : PagedKvCache) (tokens : ℕ)
    → can_admit kv tokens ≡ true
    → (tokens ≤ kv.context_limit) × (div_ceil tokens kv.page_tokens ≤ length kv.free)
unfolding can_admit
can_admit-parts kv tokens h = ground arith

can_admit_of_parts :
    (kv : PagedKvCache) (tokens : ℕ)
    → tokens ≤ kv.context_limit
    → div_ceil tokens kv.page_tokens ≤ length kv.free
    → can_admit kv tokens ≡ true
unfolding can_admit
can_admit_of_parts kv tokens a b = ground arith

-- `can_admit` answers whether `begin` would succeed.
pub can_admit-iff-begin :
    (kv : PagedKvCache) (seq tokens : ℕ)
    → (can_admit kv tokens ≡ true)
      ↔ ((kv' : PagedKvCache) × (s : SeqPages) × (begin kv seq tokens ≡ ok (kv', s)))
can_admit-iff-begin kv seq tokens = (
  λ yes_it_can.
      let (limit, room) = can_admit-parts kv tokens yes_it_can in
      let (kv', s, ran, begun) = begin_run kv seq tokens limit room in (kv', s, ran),
  λ found.
      let (limit, room) = begin-parts kv seq tokens found.2 in
      can_admit_of_parts kv tokens limit room,
)

-- A table of the pages that the tokens need covers them.
Covers-begun :
    (kv : PagedKvCache) (s : SeqPages)
    → 0 < kv.page_tokens
    → s.tokens ≤ kv.context_limit
    → length s.pages ≡ div_ceil s.tokens kv.page_tokens
    → Covers kv s
Covers-begun kv s pos limit e =
    let (enough, tight) = div_ceil_bounds s.tokens kv.page_tokens (omega arith) in
    (rw e enough, rw e tight, limit)

-- Beginning a sequence that is not active keeps the pool in order.
pub begin-IsPool :
    (kv : PagedKvCache) (seq tokens : ℕ) {kv' : PagedKvCache} {s : SeqPages}
    → IsPool kv
    → lookup seq kv.seqs ≡ none
    → begin kv seq tokens ≡ ok (kv', s)
    → IsPool kv'
begin-IsPool kv seq tokens {kv'} {s} v fresh h =
    let b = begin-IsBegun kv seq tokens h in
    rw b.result (record {
      page_pos = v.page_pos;
      distinct = insert-Distinct seq s kv.seqs v.distinct;
      owned_once = λ p. owned_begun b p ∙ v.owned_once p;
      balance = omega (
        arith,
        v.balance,
        ap (length {A = ℕ}) b.free_split,
        length-append s.pages kv'.free,
        total-insert_new page_count seq s kv.seqs fresh,
      );
      covers = λ q t at. covers_begun b q t at;
    })
  where
    owned_begun :
        IsBegun kv seq tokens kv' s
        → (p : ℕ) → occurrences p kv'.free + total (held_in p) (insert seq s kv.seqs) ≡ owned p kv
    owned_begun b p = omega (
      arith,
      ap (occurrences p) b.free_split,
      occurrences-append p s.pages kv'.free,
      total-insert_new (held_in p) seq s kv.seqs fresh,
    )

    covers_begun :
        IsBegun kv seq tokens kv' s
        → (q : ℕ) (t : SeqPages) → lookup q (insert seq s kv.seqs) ≡ some t
        → Covers kv t
    covers_begun b q t at = elim (Bool-cases (seq == q)) [
      | inl same ↦
          let e : s ≡ t = ground (arith, lookup-insert seq q s kv.seqs) in
          rw (← e) (
            Covers-begun kv s v.page_pos (omega (arith, b.tokens_eq, b.within_limit))
              (b.pages_eq ∙ ap (λ n. div_ceil n kv.page_tokens) (sym b.tokens_eq)))
      | inr differ ↦ v.covers q t (ground (arith, lookup-insert seq q s kv.seqs))
    ]
