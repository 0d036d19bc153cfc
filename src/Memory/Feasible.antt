-- ===== src/Memory/Feasible.antt =====
-- Terms under which the planner's arithmetic is exact, and what one choice of slots leaves.
use mo_earc.Common.{
  ℕ, ◌+◌, ◌*◌, ◌/◌, ◌-◌, ◌≤◌, ◌<◌, ◌≡◌, ◌⊎◌, min, inl, inr, arith, mul64, sub64_exact, u32_max,
  div-mul-le, le-div_of_fits, fits_of_le-div,
}
use mo_earc.Common.Float.{exact_max}
use mo_earc.Memory.Types.{Bias, Context}
use mo_earc.Memory.Planner.{Terms, slots_within, first_resident, pages_beside}

-- What `validate` and `check_floors` leave true, in exact arithmetic.
pub record IsFeasible (t : Terms) (usable : ℕ) : Type 0 where
  pub per_expert_pos : 0 < t.per_expert_bytes
  pub page_pos : 0 < t.bytes_per_page
  pub page_tokens_pos : 0 < t.page_tokens
  pub active_pos : 0 < t.active_experts
  pub active_le_cap : t.active_experts ≤ t.cap
  pub cap_le_total : t.cap ≤ t.total_experts
  pub cap_small : t.cap ≤ u32_max
  pub pages_small : t.min_pages ≤ u32_max
  pub small : usable ≤ exact_max
  pub min_kv_exact : t.min_kv_bytes ≡ t.bytes_per_page * t.min_pages
  pub floors_fit : t.per_expert_bytes * t.active_experts + t.bytes_per_page * t.min_pages ≤ usable

-- A number of slots between the floor and the cap, and within the usable bytes.
pub record IsHeld (t : Terms) (usable r : ℕ) : Type 0 where
  pub at_least : t.active_experts ≤ r
  pub at_most : r ≤ t.cap
  pub held : t.per_expert_bytes * r ≤ usable

-- The slots bought stay within the money, or at the floor.
pub slots_arith :
    (per active cap left r q : ℕ)
    → q * per ≤ left
    → active ≤ cap
    → (r ≡ active) ⊎ (r ≤ q)
    → (per * r ≤ left) ⊎ (r ≡ active)
slots_arith per active cap left r q h a (inl e) = inr e
slots_arith per active cap left r q h a (inr le) = inl (grind arith)

pub slots_within-cases :
    (t : Terms) (usable left : ℕ)
    → t.active_experts ≤ t.cap
    → let r = slots_within t usable left in
      (t.active_experts ≤ r)
      × (r ≤ t.cap)
      × ((r ≡ t.active_experts) ⊎ (r ≤ left / t.per_expert_bytes))
unfolding slots_within
slots_within-cases t usable left h = ground arith

pub slots_within-IsHeld :
    (t : Terms) (usable left : ℕ)
    → IsFeasible t usable
    → left ≤ usable
    → IsHeld t usable (slots_within t usable left)
slots_within-IsHeld t usable left v h =
    let (lo, hi, c) = slots_within-cases t usable left v.active_le_cap in
    elim (slots_arith t.per_expert_bytes t.active_experts t.cap left _ _
      (div-mul-le left t.per_expert_bytes) v.active_le_cap c) [
        | inl le ↦ record { at_least = lo; at_most = hi; held = omega arith }
        | inr e ↦ record { at_least = lo; at_most = hi; held = rw e (omega (arith, v.floors_fit)) }
      ]

pub first_resident-IsHeld :
    (t : Terms) (usable : ℕ) (bias : Bias) (want : Context)
    → IsFeasible t usable
    → IsHeld t usable (first_resident t usable bias want)
unfolding first_resident
first_resident-IsHeld t usable Bias.experts want v =
    slots_within-IsHeld t usable _ v (omega (arith, v.floors_fit, v.min_kv_exact, v.small))
first_resident-IsHeld t usable Bias.context (Context.tokens n) v =
    slots_within-IsHeld t usable _ v (omega arith)
first_resident-IsHeld t usable Bias.context Context.largest v =
    slots_within-IsHeld t usable _ v (omega (arith, v.floors_fit, v.min_kv_exact, v.small))

-- No product of slots and expert size wraps.
pub expert_bytes_exact :
    (t : Terms) (usable r : ℕ)
    → IsFeasible t usable
    → IsHeld t usable r
    → mul64 t.per_expert_bytes r ≡ t.per_expert_bytes * r
expert_bytes_exact t usable r v h = omega (arith, v.small, h.held)

pages_beside_lem :
    (t : Terms) (usable r : ℕ)
    → IsFeasible t usable
    → IsHeld t usable r
    → pages_beside t usable r ≡ min ((usable - t.per_expert_bytes * r) / t.bytes_per_page) u32_max
unfolding pages_beside
pages_beside_lem t usable r v h =
    rw (expert_bytes_exact t usable r v h)
      (rw (sub64_exact usable (t.per_expert_bytes * r) h.held (omega (arith, v.small))))

-- The pages beside `r` experts fit.
pub pages_beside-fits :
    (t : Terms) (usable r : ℕ)
    → IsFeasible t usable
    → IsHeld t usable r
    → t.per_expert_bytes * r + t.bytes_per_page * pages_beside t usable r ≤ usable
pages_beside-fits t usable r v h =
    let left = usable - t.per_expert_bytes * r in
    let bought =
      fits_of_le-div left t.bytes_per_page (pages_beside t usable r)
        (omega (arith, pages_beside_lem t usable r v h)) in
    omega (arith, h.held, bought)

-- And any number of pages that fits is at most that.
pub le-pages_beside :
    (t : Terms) (usable r k : ℕ)
    → IsFeasible t usable
    → IsHeld t usable r
    → k ≤ u32_max
    → t.per_expert_bytes * r + t.bytes_per_page * k ≤ usable
    → k ≤ pages_beside t usable r
le-pages_beside t usable r k v h small fits =
    let left = usable - t.per_expert_bytes * r in
    let le = le-div_of_fits left t.bytes_per_page k (omega (arith, v.page_pos)) (omega arith) in
    omega (arith, pages_beside_lem t usable r v h, le)
