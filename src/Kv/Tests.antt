-- ===== src/Kv/Tests.antt =====
-- The pool of the unit tests of kv.rs: 16 pages of 4 tokens.
use mo_earc.Common.{
  ◌≡◌, ◌↔◌, refl, arith, true, [], ◌∷◌, length, lookup, insert, remove, total, div_ceil,
}
use mo_earc.Kv.Types.{ok, SeqPages, PagedKvCache}
use mo_earc.Kv.Pages.{
  page_range, new, pop_pages, begin, need_new_page, write_token, open_page, append, end, can_admit,
  usage,
}
use mo_earc.Kv.Invariant.{occurrences, owned, IsPool, new-IsPool}
use mo_earc.Kv.Begin.{begin-IsPool, can_admit-iff-begin}
use mo_earc.Kv.Append.{Appends, append-Appends}
use mo_earc.Kv.Finish.{append-IsPool, IsEnded, end-IsEnded, begin_active-owned}

program : Unit {0}
unfolding lookup insert remove total div_ceil page_range new pop_pages begin need_new_page
    write_token open_page append end can_admit usage occurrences
program = tt

abbrev pool : PagedKvCache
pool = record {
  page_tokens = 4;
  context_limit = 1024;
  free = 0 ∷ 1 ∷ 2 ∷ 3 ∷ 4 ∷ 5 ∷ [];
  seqs = [];
  total_pages = 6;
}

pool_made : new 6 4 1024 ≡ ok pool
unfolding program
pool_made = refl

new-IsPool_example : IsPool pool × (length pool.free ≡ 6) × (pool.total_pages ≡ 6)
new-IsPool_example = new-IsPool 6 4 1024 pool_made

abbrev table : SeqPages
table = record { pages = 0 ∷ 1 ∷ []; tokens = 8 }

-- Sequence 7 with a prompt of eight tokens: two full pages.
abbrev begun : PagedKvCache
begun = record pool { free = 2 ∷ 3 ∷ 4 ∷ 5 ∷ []; seqs = (7, table) ∷ [] }

begins : begin pool 7 8 ≡ ok (begun, table)
unfolding program
begins = refl

begin-IsPool_example : IsPool begun
unfolding program
begin-IsPool_example = begin-IsPool pool 7 8 new-IsPool_example.0 refl begins

can_admit-iff-begin_example :
    (can_admit begun 16 ≡ true)
    ↔ ((kv : PagedKvCache) × (s : SeqPages) × (begin begun 9 16 ≡ ok (kv, s)))
can_admit-iff-begin_example = can_admit-iff-begin begun 9 16

append-Appends_example : Appends begun 7 table
unfolding program
append-Appends_example = append-Appends begun 7 table begin-IsPool_example refl (omega arith)

abbrev grown : PagedKvCache
grown = record begun {
  free = 3 ∷ 4 ∷ 5 ∷ [];
  seqs = (7, record { pages = 0 ∷ 1 ∷ 2 ∷ []; tokens = 9 }) ∷ [];
}

-- The ninth token opens the third page.
appends : append begun 7 ≡ ok (grown, 2, 0)
unfolding program
appends = refl

append-IsPool_example : IsPool grown
append-IsPool_example = append-IsPool begun 7 grown 2 0 begin-IsPool_example appends

end-IsEnded_example : (kv : PagedKvCache) × (end begun 7 ≡ ok (kv, 2)) × IsEnded begun 7 kv 2
unfolding program
end-IsEnded_example = end-IsEnded begun 7 table begin-IsPool_example refl

abbrev begun_again : PagedKvCache
begun_again = record begun {
  free = 3 ∷ 4 ∷ 5 ∷ [];
  seqs = (7, record { pages = 2 ∷ []; tokens = 1 }) ∷ [];
}

-- Page 0 of the first table is lost by a second `begin`.
begin_active-owned_example : owned 0 begun_again ≡ 0
unfolding program
begin_active-owned_example =
    begin_active-owned begun 7 1 0 table begin-IsPool_example refl (omega arith) refl
