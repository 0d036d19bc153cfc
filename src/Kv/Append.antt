-- ===== src/Kv/Append.antt =====
-- `append`: the token goes where the page table says, a page is opened only when the last is full,
-- and the pool stays in order.
use mo_earc.Common.{
  ℕ, ◌+◌, ◌*◌, ◌/◌, ◌%◌, ◌<◌, ◌≡◌, ◌⊎◌, refl, arith, true, false, leb, Bool-cases, inl, inr, some,
  List-cases, [], ◌∷◌, ◌++◌, length, length-append, get_elem?, get_elem?_total,
  get_elem?-append_last, lookup, insert, nat_eq, div-lt_of_lt, div-eq_of_groups,
  mod-eq-zero_of_groups, dec_lt,
}
use mo_earc.Kv.Types.{ok, err, SeqPages, PagedKvCache, exhausted}
use mo_earc.Kv.Pages.{need_new_page, write_token, open_page, append}
use mo_earc.Kv.Invariant.{Covers, IsPool}

-- What a successful `append` does to one sequence's table.
pub record IsAppended (kv : PagedKvCache) (seq : ℕ) (s : SeqPages) (kv' : PagedKvCache)
    (page slot : ℕ) : Type 0 where
  pub s' : SeqPages
  pub updated : kv'.seqs ≡ insert seq s' kv.seqs
  pub counted : s'.tokens ≡ s.tokens + 1
  pub in_table : get_elem? s'.pages (s.tokens / kv.page_tokens) ≡ some page
  pub slot_eq : slot ≡ s.tokens % kv.page_tokens
  pub grown :
      ((s'.pages ≡ s.pages) × (kv'.free ≡ kv.free) × (s.tokens < length s.pages * kv.page_tokens))
      ⊎ ((s'.pages ≡ s.pages ++ (page ∷ []))
          × (kv.free ≡ page ∷ kv'.free)
          × (s.tokens ≡ length s.pages * kv.page_tokens))
  pub settings :
      (kv'.page_tokens ≡ kv.page_tokens)
      × (kv'.context_limit ≡ kv.context_limit)
      × (kv'.total_pages ≡ kv.total_pages)

-- The table has room for the next token exactly where no new page is needed.
need_new_page-false :
    (kv : PagedKvCache) (s : SeqPages)
    → 0 < kv.page_tokens
    → Covers kv s
    → need_new_page kv s ≡ false
    → s.tokens < length s.pages * kv.page_tokens
unfolding need_new_page
need_new_page-false kv s pos c h = elim (dec_lt s.tokens (length s.pages * kv.page_tokens)) [
  | yes below ↦ below
  | no above ↦
      let full : s.tokens ≡ length s.pages * kv.page_tokens = omega (arith, c.0) in
      let groups = mod-eq-zero_of_groups s.tokens kv.page_tokens (length s.pages) full in
      absurd (ground arith)
]

need_new_page-true :
    (kv : PagedKvCache) (s : SeqPages)
    → Covers kv s
    → need_new_page kv s ≡ true
    → s.tokens ≡ length s.pages * kv.page_tokens
unfolding need_new_page
need_new_page-true kv s c h = ground arith

-- Writing into a table that has the page.
write_token_run :
    (kv : PagedKvCache) (seq : ℕ) (s : SeqPages)
    → s.tokens / kv.page_tokens < length s.pages
    → (page : ℕ) × (write_token kv seq s
        ≡ ok (
          record kv { seqs = insert seq (record s { tokens = s.tokens + 1 }) kv.seqs },
          page,
          s.tokens % kv.page_tokens,
        ))
      × (get_elem? s.pages (s.tokens / kv.page_tokens) ≡ some page)
unfolding write_token
write_token_run kv seq s room =
    let (page, found) = get_elem?_total s.pages (s.tokens / kv.page_tokens) room in
    (page, rw (found, write_token) refl, found)

module _ (kv : PagedKvCache) (seq : ℕ) (s : SeqPages) where
  -- What can come of an `append` below the limit.
  unfoldable pub Appends : Type 0
  Appends =
      ((append kv seq ≡ err (exhausted 1 0)) × (kv.free ≡ []))
      ⊎ ((kv' : PagedKvCache) × (page slot : ℕ) × (append kv seq ≡ ok (kv', page, slot))
          × IsAppended kv seq s kv' page slot)

  -- An active sequence below the context limit gets its token, or the pool is empty and says so.
  pub append-Appends :
      IsPool kv → lookup seq kv.seqs ≡ some s → s.tokens < kv.context_limit → Appends
  unfolding append open_page Appends
  append-Appends v active below = elim (Bool-cases (need_new_page kv s)) [
    | inr room ↦
        let fits = need_new_page-false kv s v.page_pos (v.covers seq s active) room in
        let (page, ran, found) =
          write_token_run kv seq s (div-lt_of_lt s.tokens kv.page_tokens (length s.pages) fits) in
        inr (
          record kv { seqs = insert seq (record s { tokens = s.tokens + 1 }) kv.seqs },
          page,
          s.tokens % kv.page_tokens,
          rw (active, append) (rw (not_full, room) ran),
          record {
            s' = record s { tokens = s.tokens + 1 };
            updated = refl;
            counted = refl;
            in_table = found;
            slot_eq = refl;
            grown = inl (refl, refl, fits);
            settings = (refl, refl, refl);
          },
        )
    | inl full ↦ elim (List-cases kv.free) [
      | inl empty ↦
          inl (rw (active, append) (rw (not_full, full) (rw (empty, open_page) refl)), empty)
      | inr (p, rest, split) ↦
          let at_end = need_new_page-true kv s (v.covers seq s active) full in
          let grown_table : SeqPages = record s { pages = s.pages ++ (p ∷ []) } in
          let position =
            div-eq_of_groups s.tokens kv.page_tokens (length s.pages) v.page_pos at_end in
          let (page, ran, found) =
            write_token_run (record kv { free = rest }) seq grown_table
              (omega (arith, length-append s.pages (p ∷ []), position)) in
          let last : get_elem? (s.pages ++ (p ∷ [])) (s.tokens / kv.page_tokens) ≡ some p =
            rw position (get_elem?-append_last s.pages p) in
          let same : p ≡ page = cc in
          inr (
            record kv {
              free = rest;
              seqs = insert seq (record grown_table { tokens = s.tokens + 1 }) kv.seqs;
            },
            page,
            s.tokens % kv.page_tokens,
            rw (active, append) (rw (not_full, full) (rw (split, open_page) ran)),
            record {
              s' = record grown_table { tokens = s.tokens + 1 };
              updated = refl;
              counted = refl;
              in_table = found;
              slot_eq = refl;
              grown = inr (rw (← same) refl, rw (← same) split, at_end);
              settings = (refl, refl, refl);
            },
          )
    ]
  ]
    where
      not_full : leb kv.context_limit s.tokens ≡ false
      not_full = ground arith
