-- ===== src/Memory/Accept.antt =====
-- The planner accepts whatever can be served: the last part from the usable bytes on.
use mo_earc.Common.{
  ℕ, ◌+◌, ◌*◌, ◌≤◌, ◌<◌, ◌≡◌, min, inl, inr, refl, arith, sub64, u32_max, u64_max, List, [], ◌++◌,
  le→ltb, div-mul-le, mul-le_left, mul-le_right, sub64_exact,
}
use mo_earc.Common.Float.{exact_max}
use mo_earc.Common.Results.{ok}
use mo_earc.Memory.Types.{ModelFootprint, Policy, Bias, Context, Reason, Allocation}
use mo_earc.Memory.Planner.{
  Terms, terms, pages_for, check_floors, first_resident, slots_within, pages_beside, settle, finish,
  allocation, allocate,
}
use mo_earc.Memory.Feasible.{
  IsFeasible, slots_within-IsHeld, slots_within-cases, slots_arith, le-pages_beside,
}
use mo_earc.Memory.Complete.{settle_complete}
use mo_earc.Memory.Sound.{IsConsistent, IsMachine, terms-IsFeasible, pages_for-le}

-- The pages that a request is worth: those of its tokens, or of the policy's minimum.
unfoldable pub wanted_pages : {F : Type 0} → Policy F → Context → ℕ
wanted_pages policy (Context.tokens n) = pages_for n policy.page_tokens
wanted_pages policy Context.largest = pages_for policy.min_context_tokens policy.page_tokens

-- A request in the range of `u32`.
abbrev pub IsRequest : Context → Type 0
IsRequest (Context.tokens n) = n ≤ u32_max
IsRequest Context.largest = Unit {0}

check_floors_complete :
    (t : Terms) (usable minimum : ℕ)
    → t.floor_bytes + t.min_kv_bytes ≤ usable
    → check_floors t usable minimum ≡ ok tt
unfolding check_floors
check_floors_complete t usable minimum h = ground arith

first_resident-largest :
    (t : Terms) (usable : ℕ) (bias : Bias)
    → first_resident t usable bias Context.largest
      ≡ slots_within t usable (sub64 usable t.min_kv_bytes)
unfolding first_resident
first_resident-largest t usable Bias.experts = refl
first_resident-largest t usable Bias.context = refl

-- Slots bought with what lies above the minimum context leave the minimum context.
first_largest-leaves :
    (t : Terms) (usable : ℕ) (bias : Bias)
    → IsFeasible t usable
    → t.min_pages ≤ pages_beside t usable (first_resident t usable bias Context.largest)
first_largest-leaves t usable bias v = rw (first_resident-largest t usable bias) (
    let left = sub64 usable t.min_kv_bytes in
    let exact =
      sub64_exact usable t.min_kv_bytes (omega (arith, v.floors_fit, v.min_kv_exact))
        (omega (arith, v.small)) in
    let r = slots_within t usable left in
    let (lo, hi, c) = slots_within-cases t usable left v.active_le_cap in
    let h = slots_within-IsHeld t usable left v (omega (arith, exact)) in
    le-pages_beside t usable r t.min_pages v h v.pages_small
      (elim (slots_arith t.per_expert_bytes t.active_experts t.cap left r _
        (div-mul-le left t.per_expert_bytes) v.active_le_cap c) [
          | inl le ↦ omega (arith, exact, v.floors_fit, v.min_kv_exact)
          | inr e ↦ rw e v.floors_fit
        ]))

-- A saturated page never costs more than the exact one, and fewer pages never cost more.
page_cost_le :
    (kv page low high : ℕ) → low ≤ high → min (kv * page) u64_max * low ≤ kv * page * high
page_cost_le kv page low high h =
    let a : min (kv * page) u64_max * low ≤ kv * page * low =
      mul-le_left (min (kv * page) u64_max) (kv * page) low (omega arith) in
    let b : kv * page * low ≤ kv * page * high = mul-le_right (kv * page) low high h in omega arith

floors_affordable :
    {F : Type 0} (model : ModelFootprint) (policy : Policy F) (usable : ℕ) (want : Context)
    → pages_for policy.min_context_tokens policy.page_tokens ≤ wanted_pages policy want
    → model.per_expert_bytes * model.active_experts
        + model.kv_bytes_per_token * policy.page_tokens * wanted_pages policy want
      ≤ usable
    → (terms model policy).floor_bytes + (terms model policy).min_kv_bytes ≤ usable
unfolding terms
floors_affordable model policy usable want above fits = omega (
  arith,
  page_cost_le model.kv_bytes_per_token policy.page_tokens
      (pages_for policy.min_context_tokens policy.page_tokens) (wanted_pages policy want) above,
)

module _ {F : Type 0} (model : ModelFootprint) (policy : Policy F) (usable : ℕ) where
  module _ (c : IsConsistent model) (m : IsMachine model policy) (small : usable ≤ exact_max)
      (pos : 0 < policy.page_tokens) where
    -- The phases up to the last one all succeed, with enough pages.
    settles :
        (want : Context)
        → IsRequest want
        → pages_for policy.min_context_tokens policy.page_tokens ≤ wanted_pages policy want
        → IsFeasible (terms model policy) usable
        → model.per_expert_bytes * model.active_experts
            + model.kv_bytes_per_token * policy.page_tokens * wanted_pages policy want
          ≤ usable
        → (pages r : ℕ) × (more : List Reason) × (settle
              (terms model policy)
              usable
              policy.bias
              want
              (first_resident (terms model policy) usable policy.bias want)
            ≡ ok (pages, r, more))
          × ((terms model policy).min_pages ≤ pages)
    unfolding wanted_pages settle terms
    settles (Context.tokens n) range above v fits =
        let (r, more, e) =
          settle_complete (terms model policy) usable v n policy.bias
            (omega (arith, pages_for-le n policy.page_tokens pos))
            (omega (
              arith,
              page_cost_le model.kv_bytes_per_token policy.page_tokens
                  (pages_for n policy.page_tokens) (pages_for n policy.page_tokens) (omega arith),
            )) in
        (pages_for n policy.page_tokens, r, more, e, above)
    settles Context.largest range above v fits =
        let t = terms model policy in
        let r = first_resident t usable policy.bias Context.largest in
        (pages_beside t usable r, r, [], refl, first_largest-leaves t usable policy.bias v)

    -- What fits is allocated.
    pub allocate_complete :
        (want : Context) (headroom : ℕ) (before : List Reason)
        → IsRequest want
        → pages_for policy.min_context_tokens policy.page_tokens ≤ wanted_pages policy want
        → model.per_expert_bytes * model.active_experts
            + model.kv_bytes_per_token * policy.page_tokens * wanted_pages policy want
          ≤ usable
        → (a : Allocation) × (allocate model policy want usable headroom before ≡ ok a)
    unfolding allocate finish
    allocate_complete want headroom before range above fits =
        let t = terms model policy in
        let floors =
          check_floors_complete t usable policy.min_context_tokens
            (floors_affordable model policy usable want above fits) in
        let v = terms-IsFeasible model policy usable c m small pos floors in
        let (pages, r, more, e, enough) = settles want range above v fits in
        (
          allocation t usable policy.max_resident_experts want headroom (before ++ more) pages r,
          rw (floors, e) (rw (le→ltb t.min_pages pages enough) refl),
        )
