-- ===== src/Memory/Settle.antt =====
-- The phase that settles pages and slots: what it returns fits, and it refuses a request only if
-- the request does not fit beside the active experts alone.
use mo_earc.Common.{
  ℕ, ◌+◌, ◌*◌, ◌≤◌, ◌≡◌, inl, inr, refl, arith, ltb, leb, ltb→le, leb→le, List, [], Bool,
  Bool-cases,
}
use mo_earc.Common.Results.{ok, err}
use mo_earc.Memory.Types.{Bias, Context, Reason, PlanError, Planned}
use mo_earc.Memory.Planner.{Terms, pages_for, pages_beside, give_back, yield_slots, settle}
use mo_earc.Memory.Feasible.{IsFeasible, IsHeld, pages_beside-fits}
use mo_earc.Memory.Yield.{GaveBack, give_back-GaveBack}

-- The pages and slots that are settled fit, and serve the request.
pub record IsSettled (t : Terms) (usable : ℕ) (want : Context) (pages r : ℕ) : Type 0 where
  pub held : IsHeld t usable r
  pub fits : t.per_expert_bytes * r + t.bytes_per_page * pages ≤ usable
  pub serves : (n : ℕ) → want ≡ Context.tokens n → pages ≡ pages_for n t.page_tokens

abbrev settled : ℕ × ℕ × List Reason → Planned (ℕ × ℕ × List Reason)
settled = ok

fits_fewer :
    (per r bpp pages need usable : ℕ)
    → per * r + bpp * pages ≤ usable
    → need ≤ pages
    → per * r + bpp * need ≤ usable
fits_fewer per r bpp pages need usable h le = grind arith

tokens-injective : (n m : ℕ) → Context.tokens n ≡ Context.tokens m → n ≡ m
tokens-injective n m e = cc

module _ (t : Terms) (usable : ℕ) (v : IsFeasible t usable) where
  IsSettled-tokens :
      (n pages r : ℕ)
      → IsHeld t usable r
      → pages ≡ pages_beside t usable r
      → pages_for n t.page_tokens ≤ pages
      → IsSettled t usable (Context.tokens n) (pages_for n t.page_tokens) r
  IsSettled-tokens n pages r h e le = record {
    held = h;
    fits =
        fits_fewer t.per_expert_bytes r t.bytes_per_page (pages_beside t usable r) _ usable
          (pages_beside-fits t usable r v h) (rw (← e) le);
    serves = λ m same. ap_pages m same;
  }
    where
      ap_pages :
          (m : ℕ)
          → Context.tokens n ≡ Context.tokens m
          → pages_for n t.page_tokens ≡ pages_for m t.page_tokens
      ap_pages m same = rw (tokens-injective n m same)

  GaveBack-IsHeld :
      (need from : ℕ) (out : ℕ × ℕ)
      → IsHeld t usable from
      → GaveBack t usable need from out
      → IsHeld t usable out.0
  GaveBack-IsHeld need from out h g = record {
    at_least = g.at_least;
    at_most = omega (arith, h.at_most, g.at_most);
    held = held_fewer t.per_expert_bytes out.0 from usable h.held g.at_most;
  }
    where
      held_fewer : (per a b usable : ℕ) → per * b ≤ usable → a ≤ b → per * a ≤ usable
      held_fewer per a b usable le ab = grind arith

  yield_slots-IsSettled :
      (n from pages : ℕ) {kv r : ℕ} {more : List Reason}
      → IsHeld t usable from
      → pages ≡ pages_beside t usable from
      → yield_slots t usable n (pages_for n t.page_tokens) from pages ≡ ok (kv, r, more)
      → IsSettled t usable (Context.tokens n) kv r
  unfolding yield_slots
  yield_slots-IsSettled n from pages {kv} {r} h e eq =
      let need = pages_for n t.page_tokens in
      let out = give_back t usable need from pages in
      let g =
        give_back-GaveBack t usable need from pages (omega (arith, v.active_pos)) h.at_least e in
      elim (Bool-cases (ltb out.1 need)) [
        | inl short ↦ absurd (ground arith)
        | inr enough ↦
            let (kv_eq, r_eq) = parts enough in
            rw (← kv_eq, ← r_eq)
              (IsSettled-tokens n out.1 out.0 (GaveBack-IsHeld need from out h g) g.pages
                (ltb→le out.1 need enough))
      ]
    where
      need' : ℕ
      need' = pages_for n t.page_tokens

      parts :
          ltb (give_back t usable need' from pages).1 need' ≡ Bool.false
          → (need' ≡ kv) × ((give_back t usable need' from pages).0 ≡ r)
      parts enough = ground arith

  settled_at_once :
      (n from : ℕ) {kv r : ℕ} {more : List Reason}
      → IsHeld t usable from
      → leb (pages_for n t.page_tokens) (pages_beside t usable from) ≡ Bool.true
      → settled (pages_for n t.page_tokens, from, []) ≡ settled (kv, r, more)
      → IsSettled t usable (Context.tokens n) kv r
  settled_at_once n from {kv} {r} h enough eq =
      let (kv_eq, r_eq) = parts in
      rw (← kv_eq, ← r_eq)
        (IsSettled-tokens n (pages_beside t usable from) from h refl (leb→le _ _ enough))
    where
      parts : (pages_for n t.page_tokens ≡ kv) × (from ≡ r)
      parts = ground arith

  -- Whatever `settle` returns fits and serves the request.
  pub settle-IsSettled :
      (bias : Bias) (want : Context) (from : ℕ) {kv r : ℕ} {more : List Reason}
      → IsHeld t usable from
      → settle t usable bias want from ≡ ok (kv, r, more)
      → IsSettled t usable want kv r
  unfolding settle
  settle-IsSettled bias Context.largest from {kv} {r} h eq =
      let (kv_eq, r_eq) = parts in
      rw (← kv_eq, ← r_eq)
        (record {
          held = h;
          fits = pages_beside-fits t usable from v h;
          serves = λ n same. absurd (cc);
        })
    where
      parts : (pages_beside t usable from ≡ kv) × (from ≡ r)
      parts = ground arith
  settle-IsSettled Bias.experts (Context.tokens n) from h eq =
      elim (Bool-cases (leb (pages_for n t.page_tokens) (pages_beside t usable from))) [
        | inl enough ↦ settled_at_once n from h enough (rw enough at eq)
        | inr short ↦ yield_slots-IsSettled n from _ h refl (rw short at eq)
      ]
  settle-IsSettled Bias.context (Context.tokens n) from h eq =
      elim (Bool-cases (leb (pages_for n t.page_tokens) (pages_beside t usable from))) [
        | inl enough ↦ settled_at_once n from h enough (rw enough at eq)
        | inr short ↦ absurd (refused (rw short at eq))
      ]
    where
      refused : {e : PlanError} {kv r : ℕ} {more : List Reason} → err e ≡ settled (kv, r, more) → ⊥
      refused same = cc
