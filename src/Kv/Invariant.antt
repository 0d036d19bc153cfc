-- ===== src/Kv/Invariant.antt =====
-- The invariant of the page allocator: every page is free or held, exactly once; every table covers
-- its sequence's tokens with less than a page to spare.
use mo_earc.Common.{
  ℕ, zero, suc, ◌+◌, ◌*◌, ◌≤◌, ◌<◌, ◌≡◌, refl, ap, arith, ltb, ◌==◌, if◌then◌else◌, Bool-cases, inl,
  inr, some, none≢some, List, [], ◌∷◌, ◌++◌, length, lookup, nat_eq, Distinct, total,
}
use mo_earc.Kv.Types.{ok, SeqPages, PagedKvCache}
use mo_earc.Kv.Pages.{page_range, new, pop_pages, page_count}

-- How often a page stands in a list.
unfoldable pub occurrences : ℕ → List ℕ → ℕ
occurrences p [] = 0
occurrences p (q ∷ qs) = let rest = occurrences p qs in if q == p then suc rest else rest

pub occurrences-append :
    (p : ℕ) (xs ys : List ℕ) → occurrences p (xs ++ ys) ≡ occurrences p xs + occurrences p ys
unfolding occurrences
occurrences-append p [] ys = omega arith
occurrences-append p (x ∷ xs) ys = ground (arith, occurrences-append p xs ys)

abbrev pub held_in : ℕ → SeqPages → ℕ
held_in p s = occurrences p s.pages

-- How often a page is owned: free, or in the table of a sequence.
abbrev pub owned : ℕ → PagedKvCache → ℕ
owned p kv = occurrences p kv.free + total (held_in p) kv.seqs

abbrev pub Covers : PagedKvCache → SeqPages → Type 0
Covers kv s =
    (s.tokens ≤ length s.pages * kv.page_tokens)
    × (length s.pages * kv.page_tokens < s.tokens + kv.page_tokens)
    × (s.tokens ≤ kv.context_limit)

pub record IsPool (kv : PagedKvCache) : Type 0 where
  pub page_pos : 0 < kv.page_tokens
  pub distinct : Distinct kv.seqs
  pub owned_once : (p : ℕ) → owned p kv ≡ (if ltb p kv.total_pages then 1 else 0)
  pub balance : length kv.free + total page_count kv.seqs ≡ kv.total_pages
  pub covers : (seq : ℕ) (s : SeqPages) → lookup seq kv.seqs ≡ some s → Covers kv s

occurrences-page_range :
    (p first n : ℕ)
    → occurrences p (page_range first n)
      ≡ (if ltb p first then 0 else if ltb p (first + n) then 1 else 0)
unfolding occurrences page_range
occurrences-page_range p first zero = ground arith
occurrences-page_range p first (suc n) = ground (arith, occurrences-page_range p (first + 1) n)

length-page_range : (first n : ℕ) → length (page_range first n) ≡ n
unfolding page_range
length-page_range first zero = refl
length-page_range first (suc n) = ap suc (length-page_range (first + 1) n)

-- What `pop_pages` takes and leaves.
pub pop_pages_total :
    (n : ℕ) (free : List ℕ)
    → n ≤ length free
    → (pages : List ℕ) × (rest : List ℕ) × (pop_pages n free ≡ some (pages, rest))
      × (length pages ≡ n)
      × (free ≡ pages ++ rest)
unfolding pop_pages
pop_pages_total zero free h = ([], free, refl, refl, refl)
pop_pages_total (suc n) [] h = absurd (omega arith)
pop_pages_total (suc n) (p ∷ free) h =
    let (pages, rest, popped, len, split) = pop_pages_total n free (omega arith) in
    (p ∷ pages, rest, rw popped refl, ap suc len, ap (◌∷◌ p) split)

-- A new pool is in order, and all of it is free.
pub new-IsPool :
    (pages page_tokens limit : ℕ) {kv : PagedKvCache}
    → new pages page_tokens limit ≡ ok kv
    → IsPool kv × (length kv.free ≡ pages) × (kv.total_pages ≡ pages)
unfolding new total lookup
new-IsPool pages page_tokens limit {kv} h = elim (Bool-cases (pages == 0)) [
  | inl no_pages ↦ absurd (ground arith)
  | inr some_pages ↦ elim (Bool-cases (page_tokens == 0)) [
    | inl no_tokens ↦ absurd (ground arith)
    | inr some_tokens ↦
        let made : fresh ≡ kv = ground arith in
        rw (← made) (
          record {
            page_pos = ground arith;
            distinct = tt;
            owned_once = λ p. ground (arith, occurrences-page_range p 0 pages);
            balance = omega (arith, length-page_range 0 pages);
            covers = λ seq s k. absurd (none≢some {a = s} refl k);
          },
          length-page_range 0 pages,
          refl,
        )
  ]
]
  where
    fresh : PagedKvCache
    fresh = record {
      page_tokens = page_tokens;
      context_limit = limit;
      free = page_range 0 pages;
      seqs = [];
      total_pages = pages;
    }
