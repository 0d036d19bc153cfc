-- ===== src/Kv/Pages.antt =====
-- The operations of kv.rs.
use mo_earc.Common.{
  ℕ, zero, suc, ◌+◌, ◌-◌, ◌*◌, ◌/◌, ◌%◌, Bool, ◌&&◌, ltb, leb, ◌==◌, if◌then◌else◌, Option, none,
  some, List, [], ◌∷◌, ◌++◌, length, get_elem?, lookup, insert, remove, nat_eq, total, div_ceil,
  u32_max, mul32,
}
use mo_earc.Kv.Types.{
  Outcome, ok, err, panic, SeqPages, KvUsage, PagedKvCache, exhausted, unknown_sequence,
  context_limit, invalid_geometry,
}

-- The pages `first`, `first + 1`, … : the source pushes them in reverse, so 0 is popped first.
unfoldable pub page_range : ℕ → ℕ → List ℕ
page_range first zero = []
page_range first (suc n) = first ∷ page_range (first + 1) n

unfoldable pub new : ℕ → ℕ → ℕ → Outcome PagedKvCache
new total_pages page_tokens limit =
    if total_pages == 0
    then err (invalid_geometry "a pool needs at least one page")
    else if page_tokens == 0
    then err (invalid_geometry "a page must hold at least one token")
    else ok (record {
      page_tokens = page_tokens;
      context_limit = limit;
      free = page_range 0 total_pages;
      seqs = [];
      total_pages = total_pages;
    })

-- `for _ in 0..needed { pages.push(self.free.pop().expect(…)) }`: the pages taken, and the rest.
unfoldable pub pop_pages : ℕ → List ℕ → Option (List ℕ × List ℕ)
pop_pages zero free = some ([], free)
pop_pages (suc n) [] = none
pop_pages (suc n) (p ∷ free) = elim (pop_pages n free) [
  | none ↦ none
  | some (pages, rest) ↦ some (p ∷ pages, rest)
]

unfoldable pub begin : PagedKvCache → ℕ → ℕ → Outcome (PagedKvCache × SeqPages)
begin kv seq prompt_tokens =
    let needed = div_ceil prompt_tokens kv.page_tokens in
    if ltb kv.context_limit prompt_tokens
    then err (context_limit seq prompt_tokens kv.context_limit)
    else if ltb (length kv.free) needed
    then err (exhausted needed (length kv.free))
    else elim (pop_pages needed kv.free) [
      | none ↦ panic
      | some (pages, rest) ↦
          let s : SeqPages = record { pages = pages; tokens = prompt_tokens } in
          ok (record kv { free = rest; seqs = insert seq s kv.seqs }, s)
    ]

unfoldable pub need_new_page : PagedKvCache → SeqPages → Bool
need_new_page kv s =
    (s.tokens % kv.page_tokens) == 0 && leb (length s.pages * kv.page_tokens) s.tokens

-- From the sequence's table, with a page to write into: the page and the slot of the token.
unfoldable pub write_token : PagedKvCache → ℕ → SeqPages → Outcome (PagedKvCache × ℕ × ℕ)
write_token kv seq s = elim (get_elem? s.pages (s.tokens / kv.page_tokens)) [
  | none ↦ panic
  | some page ↦ ok (
    record kv { seqs = insert seq (record s { tokens = s.tokens + 1 }) kv.seqs },
    page,
    s.tokens % kv.page_tokens,
  )
]

-- The page that is popped goes to the end of the sequence's table.
unfoldable pub open_page : PagedKvCache → ℕ → SeqPages → List ℕ → Outcome (PagedKvCache × ℕ × ℕ)
open_page kv seq s [] = err (exhausted 1 0)
open_page kv seq s (p ∷ rest) =
    write_token (record kv { free = rest }) seq (record s { pages = s.pages ++ (p ∷ []) })

unfoldable pub append : PagedKvCache → ℕ → Outcome (PagedKvCache × ℕ × ℕ)
append kv seq = elim (lookup seq kv.seqs) [
  | none ↦ err (unknown_sequence seq)
  | some s ↦
      if leb kv.context_limit s.tokens
      then err (context_limit seq s.tokens kv.context_limit)
      else if need_new_page kv s
      then open_page kv seq s kv.free
      else write_token kv seq s
]

-- `for p in pages.rev() { free.push(p) }`: the first page ends on top.
unfoldable pub end : PagedKvCache → ℕ → Outcome (PagedKvCache × ℕ)
end kv seq = elim (lookup seq kv.seqs) [
  | none ↦ err (unknown_sequence seq)
  | some s ↦ ok (record kv { free = s.pages ++ kv.free; seqs = remove seq kv.seqs }, length s.pages)
]

unfoldable pub pages_of : PagedKvCache → ℕ → Outcome SeqPages
pages_of kv seq = elim (lookup seq kv.seqs) [ none ↦ err (unknown_sequence seq) | some s ↦ ok s ]

unfoldable pub can_admit : PagedKvCache → ℕ → Bool
can_admit kv tokens =
    leb tokens kv.context_limit && leb (div_ceil tokens kv.page_tokens) (length kv.free)

abbrev pub page_count : SeqPages → ℕ
page_count s = length s.pages

-- The sums and the product are of `u32`.
unfoldable pub usage : PagedKvCache → KvUsage
usage kv = record {
  total_pages = kv.total_pages;
  used_pages = total page_count kv.seqs % (u32_max + 1);
  sequences = length kv.seqs % (u32_max + 1);
  slack_tokens =
      total (λ s. mul32 (page_count s) kv.page_tokens - s.tokens) kv.seqs % (u32_max + 1);
}
