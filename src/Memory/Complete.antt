-- ===== src/Memory/Complete.antt =====
-- A requested context is refused only if it does not fit beside the active experts alone.
use mo_earc.Common.{
  ℕ, ◌+◌, ◌*◌, ◌-◌, ◌≤◌, ◌≡◌, ◌⊎◌, max, inl, inr, refl, arith, leb, List, [], ◌∷◌, u32_max,
  sat_mul64, div-mul-le, mul-le_right, Bool-cases,
}
use mo_earc.Common.Results.{ok}
use mo_earc.Memory.Types.{Bias, Context, Reason}
use mo_earc.Memory.Planner.{
  Terms, pages_for, slots_within, first_resident, pages_beside, give_back, yield_slots, settle,
}
use mo_earc.Memory.Feasible.{
  IsFeasible, IsHeld, slots_within-IsHeld, slots_within-cases, slots_arith, first_resident-IsHeld,
  le-pages_beside,
}
use mo_earc.Memory.Yield.{GaveBack, give_back-GaveBack}

max_fits :
    (bpp a b usable : ℕ)
    → bpp * a ≤ usable
    → bpp * b ≤ usable
    → (bpp * max a b ≤ usable) × (bpp * a ≤ bpp * max a b)
max_fits bpp a b usable ha hb = elim (le_cases a b) [
  | inl le ↦ let e : max a b ≡ b = omega arith in rw e (hb, mul-le_right bpp a b le)
  | inr ge ↦ let e : max a b ≡ a = omega arith in rw e (ha, omega arith)
]
  where
    le_cases : (x y : ℕ) → (x ≤ y) ⊎ (y ≤ x)
    le_cases x y = omega arith

module _ (t : Terms) (usable : ℕ) (v : IsFeasible t usable) where
  active-IsHeld : IsHeld t usable t.active_experts
  active-IsHeld = record {
    at_least = omega arith;
    at_most = v.active_le_cap;
    held = omega (arith, v.floors_fit);
  }

  module _ (n : ℕ) where
    abbrev need : ℕ
    need = pages_for n t.page_tokens

    abbrev FitsBesideActive : Type 0
    FitsBesideActive = t.per_expert_bytes * t.active_experts + t.bytes_per_page * need ≤ usable

    give_back-reaches :
        (out : ℕ × ℕ) {from : ℕ}
        → need ≤ u32_max
        → FitsBesideActive
        → GaveBack t usable need from out
        → need ≤ out.1
    give_back-reaches out small fits g = elim g.stopped [
      | inl done ↦ done
      | inr e ↦
          rw (g.pages, e)
            (le-pages_beside t usable t.active_experts need v active-IsHeld small fits)
    ]

    yield_slots_complete :
        (from : ℕ)
        → need ≤ u32_max
        → FitsBesideActive
        → IsHeld t usable from
        → (r : ℕ) × (more : List Reason) × (yield_slots t usable n need from
              (pages_beside t usable from)
            ≡ ok (need, r, more))
    unfolding yield_slots
    yield_slots_complete from small fits h =
        let out = give_back t usable need from (pages_beside t usable from) in
        let g =
          give_back-GaveBack t usable need from _ (omega (arith, v.active_pos)) h.at_least refl in
        let reached = give_back-reaches out small fits g in
        (out.0, Reason.experts_yielded_to_context out.0 from ∷ [], ground arith)

    -- With the context first, the first choice already leaves room for the request.
    first_context-leaves :
        need ≤ u32_max
        → FitsBesideActive
        → need ≤ pages_beside t usable (first_resident t usable Bias.context (Context.tokens n))
    unfolding first_resident
    first_context-leaves small fits =
        let left = usable - sat_mul64 t.bytes_per_page (max need t.min_pages) in
        let r = slots_within t usable left in
        let (lo, hi, c) = slots_within-cases t usable left v.active_le_cap in
        let h = slots_within-IsHeld t usable left v (omega arith) in
        let room =
          max_fits t.bytes_per_page need t.min_pages usable (omega arith)
            (omega (arith, v.floors_fit)) in
        le-pages_beside t usable r need v h small
          (elim (slots_arith t.per_expert_bytes t.active_experts t.cap left r _
            (div-mul-le left t.per_expert_bytes) v.active_le_cap c) [
              | inl le ↦ omega (arith, room, v.small)
              | inr e ↦ rw e fits
            ])

    -- `settle` serves a request that fits beside the active experts alone.
    pub settle_complete :
        (bias : Bias)
        → need ≤ u32_max
        → FitsBesideActive
        → (r : ℕ) × (more : List Reason) × (settle t usable bias
              (Context.tokens n)
              (first_resident t usable bias (Context.tokens n))
            ≡ ok (need, r, more))
    unfolding settle
    settle_complete Bias.experts small fits =
        let from = first_resident t usable Bias.experts (Context.tokens n) in
        elim (Bool-cases (leb need (pages_beside t usable from))) [
          | inl enough ↦ rw enough (from, [], refl)
          | inr short ↦
              rw short (yield_slots_complete from small fits (first_resident-IsHeld t usable _ _ v))
        ]
    settle_complete Bias.context small fits =
        let from = first_resident t usable Bias.context (Context.tokens n) in
        (from, [], ground (arith, first_context-leaves small fits))
