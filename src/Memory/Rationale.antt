-- ===== src/Memory/Rationale.antt =====
-- What the rationale says of the context: when `ContextLimitedByMemory` is reported.
use mo_earc.Common.{
  ℕ, ◌*◌, ◌≤◌, ◌<◌, ◌≡◌, ◌↔◌, ◌≢◌, ◌⊎◌, refl, arith, mul32, u32_max, [], div_ceil_bounds, inl, inr,
  le→ltb, lt→ltb,
}
use mo_earc.Memory.Types.{Context}
use mo_earc.Memory.Planner.{Terms, pages_for, context_reason}

-- While the product of pages and their tokens stays in `u32`, no reduction is reported.
context_reason-of_pages_for :
    (t : Terms) (usable n : ℕ)
    → 0 < t.page_tokens
    → pages_for n t.page_tokens * t.page_tokens ≤ u32_max
    → context_reason t usable (Context.tokens n) (pages_for n t.page_tokens) ≡ []
unfolding context_reason
context_reason-of_pages_for t usable n pos fits =
    let (enough, tight) = div_ceil_bounds n t.page_tokens (omega arith) in
    rw (le→ltb n (mul32 (pages_for n t.page_tokens) t.page_tokens) (omega arith)) refl

-- Past `u32` the product wraps.
context_reason_wraps :
    (t : Terms) (usable n : ℕ)
    → 0 < t.page_tokens
    → t.page_tokens ≤ n
    → n ≤ u32_max
    → u32_max < pages_for n t.page_tokens * t.page_tokens
    → context_reason t usable (Context.tokens n) (pages_for n t.page_tokens) ≢ []
unfolding context_reason
context_reason_wraps t usable n pos page range wraps =
    let (enough, tight) = div_ceil_bounds n t.page_tokens (omega arith) in
    rw (lt→ltb (mul32 (pages_for n t.page_tokens) t.page_tokens) n (omega arith)) (cc)

-- For a request of at least one page, in pages that hold all of it, `plan` reports a reduced context
-- exactly where the product of the pages and their tokens leaves `u32` and wraps.
pub context_reason-eq-nil_iff :
    (t : Terms) (usable n : ℕ)
    → 0 < t.page_tokens
    → t.page_tokens ≤ n
    → n ≤ u32_max
    → (context_reason t usable (Context.tokens n) (pages_for n t.page_tokens) ≡ [])
      ↔ (pages_for n t.page_tokens * t.page_tokens ≤ u32_max)
context_reason-eq-nil_iff t usable n pos page range = (
  λ silent. elim in_range [
    | inl fits ↦ fits
    | inr wraps ↦ absurd (context_reason_wraps t usable n pos page range wraps silent)
  ],
  context_reason-of_pages_for t usable n pos,
)
  where
    in_range :
        (pages_for n t.page_tokens * t.page_tokens ≤ u32_max)
        ⊎ (u32_max < pages_for n t.page_tokens * t.page_tokens)
    in_range = omega arith
