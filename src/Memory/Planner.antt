-- ===== src/Memory/Planner.antt =====
-- The functions of memory.rs. `plan` is cut where the source has its phases; every machine
-- operation that is not checked or saturating in the source wraps here.
use mo_earc.Common.{
  ℕ, zero, suc, ◌/◌, ◌-◌, min, max, Bool, true, false, ◌&&◌, Option, none, some, List, [], ◌∷◌,
  ◌++◌, ltb, leb, ◌==◌, if◌then◌else◌, mul32, mul64, sub64, sat_mul32, sat_mul64, sat_add64, to_u32,
  clamp, div_ceil,
}
use mo_earc.Common.Float.{Float, ceil_share}
use mo_earc.Common.Results.{ok, err, ◌>>=◌, ◌>>◌, refuse}
use mo_earc.Memory.Types.{
  DeviceMemory, ModelFootprint, Bias, Headroom, Policy, Context, Reason, Allocation, Planned,
  invalid_model, invalid_policy, weights_do_not_fit, cannot_hold_active_experts, context_too_small,
  context_does_not_fit,
}

unfoldable pub validate : ModelFootprint → Planned (Unit {0})
validate model = do
  refuse (model.total_experts == 0) (invalid_model "total_experts is zero — not an MoE model")
  refuse (model.active_experts == 0) (invalid_model "active_experts is zero")
  refuse (ltb model.total_experts model.active_experts)
      (invalid_model "active_experts exceeds total_experts")
  refuse (model.per_expert_bytes == 0) (invalid_model "per_expert_bytes is zero")
  refuse (model.kv_bytes_per_token == 0) (invalid_model "kv_bytes_per_token is zero")

abbrev pub pages_for : ℕ → ℕ → ℕ
pages_for tokens page_tokens = div_ceil tokens page_tokens

-- The local variables of `plan` that depend on the model and the policy alone.
pub record Terms : Type 0 where
  pub per_expert_bytes : ℕ
  pub active_experts : ℕ
  pub total_experts : ℕ
  pub floor_bytes : ℕ
  pub cap : ℕ
  pub page_tokens : ℕ
  pub bytes_per_page : ℕ
  pub min_pages : ℕ
  pub min_kv_bytes : ℕ

unfoldable pub policy_cap : Option ℕ → ℕ → ℕ
policy_cap none total = total
policy_cap (some c) total = min c total

unfoldable pub terms : {F : Type 0} → ModelFootprint → Policy F → Terms
terms model policy =
    let page_bytes : ℕ = sat_mul64 model.kv_bytes_per_token policy.page_tokens in
    let pages : ℕ = pages_for policy.min_context_tokens policy.page_tokens in
    record {
      per_expert_bytes = model.per_expert_bytes;
      active_experts = model.active_experts;
      total_experts = model.total_experts;
      floor_bytes = sat_mul64 model.per_expert_bytes model.active_experts;
      cap = max (policy_cap policy.max_resident_experts model.total_experts) model.active_experts;
      page_tokens = policy.page_tokens;
      bytes_per_page = page_bytes;
      min_pages = pages;
      min_kv_bytes = sat_mul64 page_bytes pages;
    }

module _ (t : Terms) (usable : ℕ) where
  -- The two checks between the terms and the first choice.
  unfoldable pub check_floors : ℕ → Planned (Unit {0})
  check_floors minimum = do
    refuse (ltb usable t.floor_bytes)
        (cannot_hold_active_experts t.floor_bytes usable t.active_experts)
    refuse (ltb usable (sat_add64 t.floor_bytes t.min_kv_bytes)) (
        context_too_small
          (sat_mul32 (to_u32 (sub64 usable t.floor_bytes / t.bytes_per_page)) t.page_tokens)
          minimum)

  -- The whole slots that `left` bytes buy, held between the active experts and the cap.
  unfoldable pub slots_within : ℕ → ℕ
  slots_within left = clamp t.active_experts t.cap (to_u32 (left / t.per_expert_bytes))

  -- The `match (policy.bias, want)`.
  unfoldable pub first_resident : Bias → Context → ℕ
  first_resident Bias.experts want = slots_within (sub64 usable t.min_kv_bytes)
  first_resident Bias.context (Context.tokens n) =
      slots_within
        (usable - sat_mul64 t.bytes_per_page (max (pages_for n t.page_tokens) t.min_pages))
  first_resident Bias.context Context.largest = slots_within (sub64 usable t.min_kv_bytes)

  -- The pages that fit beside `r` resident experts.
  unfoldable pub pages_beside : ℕ → ℕ
  pages_beside r = to_u32 (sub64 usable (mul64 t.per_expert_bytes r) / t.bytes_per_page)

  -- `while pages < need && r > model.active_experts`: the resident experts and the pages after.
  unfoldable pub give_back : ℕ → ℕ → ℕ → ℕ × ℕ
  give_back need zero pages = (zero, pages)
  give_back need (suc r) pages = elim (ltb pages need && ltb t.active_experts (suc r)) [
    | true ↦ give_back need r (pages_beside r)
    | false ↦ (suc r, pages)
  ]

  -- The arm of `Bias::Experts`: give slots back, and fail if the floor is not enough.
  unfoldable pub yield_slots : ℕ → ℕ → ℕ → ℕ → Planned (ℕ × ℕ × List Reason)
  yield_slots n need resident pages =
      let (r, left) = give_back need resident pages in
      if ltb left need
      then err (context_does_not_fit n (sat_mul32 left t.page_tokens))
      else ok (need, r, Reason.experts_yielded_to_context r resident ∷ [])

  -- `let (kv_pages, resident) = match want { … }`, with the reasons that it pushes.
  unfoldable pub settle : Bias → Context → ℕ → Planned (ℕ × ℕ × List Reason)
  settle bias Context.largest resident = ok (pages_beside resident, resident, [])
  settle bias (Context.tokens n) resident =
      let need = pages_for n t.page_tokens in
      let pages = pages_beside resident in
      if leb need pages then ok (need, resident, []) else elim bias [
        | Bias.experts ↦ yield_slots n need resident pages
        | Bias.context ↦ err (context_does_not_fit n (sat_mul32 pages t.page_tokens))
      ]

  -- `policy.max_resident_experts == Some(resident)`
  unfoldable pub is_policy_limit : Option ℕ → ℕ → Bool
  is_policy_limit none resident = false
  is_policy_limit (some c) resident = c == resident

  unfoldable pub residency_reason : Option ℕ → ℕ → Reason
  residency_reason limit resident =
      if leb t.total_experts resident
      then Reason.all_experts_resident resident
      else if is_policy_limit limit resident
      then Reason.experts_limited_by_policy resident t.cap
      else Reason.experts_limited_by_memory resident t.total_experts

  unfoldable pub context_reason : Context → ℕ → List Reason
  context_reason Context.largest kv_pages = []
  context_reason (Context.tokens n) kv_pages =
      let served = mul32 kv_pages t.page_tokens in
      if ltb served n then Reason.context_limited_by_memory served n ∷ [] else []

  unfoldable pub floor_reason : ℕ → List Reason
  floor_reason kv_pages =
      if kv_pages == t.min_pages && ltb 0 t.min_pages
      then Reason.context_at_policy_floor (mul32 kv_pages t.page_tokens) ∷ []
      else []

  -- The `Allocation` of the settled pages and slots; `before` is the rationale so far.
  unfoldable pub allocation : Option ℕ → Context → ℕ → List Reason → ℕ → ℕ → Allocation
  allocation limit want headroom before kv_pages resident =
      let expert_bytes = mul64 t.per_expert_bytes resident in
      let kv_bytes = mul64 t.bytes_per_page kv_pages in
      record {
        resident_experts = resident;
        context_tokens = sat_mul32 kv_pages t.page_tokens;
        kv_pages = kv_pages;
        expert_bytes = expert_bytes;
        kv_bytes = kv_bytes;
        headroom_bytes = headroom;
        rationale =
            before
            ++ (residency_reason limit resident
                ∷ (context_reason want kv_pages
                    ++ (floor_reason kv_pages
                        ++ (Reason.slack (sub64 (sub64 usable expert_bytes) kv_bytes) ∷ []))));
      }

  -- The last check, and the result.
  unfoldable pub finish : Option ℕ → ℕ → Context → ℕ → List Reason → ℕ → ℕ → Planned Allocation
  finish limit minimum want headroom before kv_pages resident =
      if ltb kv_pages t.min_pages
      then err (context_too_small (sat_mul32 kv_pages t.page_tokens) minimum)
      else ok (allocation limit want headroom before kv_pages resident)

-- Everything after the budget: from the usable bytes to the allocation.
unfoldable pub allocate :
    {F : Type 0} → ModelFootprint → Policy F → Context → ℕ → ℕ → List Reason → Planned Allocation
allocate model policy want usable headroom before = do
  let t = terms model policy
  check_floors t usable policy.min_context_tokens
  let first = first_resident t usable policy.bias want
  (kv_pages, resident, more) ← settle t usable policy.bias want first
  finish t usable policy.max_resident_experts policy.min_context_tokens want headroom
      (before ++ more) kv_pages resident

module _ (fl : Float) where
  unfoldable pub reserve_from : Headroom fl.F64 → ℕ → ℕ
  reserve_from (Headroom.fraction f) free = ceil_share fl f free
  reserve_from (Headroom.bytes b) free = min b free

  unfoldable pub plan : DeviceMemory → ModelFootprint → Policy fl.F64 → Context → Planned Allocation
  plan device model policy want = do
    validate model
    refuse (policy.page_tokens == 0) (invalid_policy "page_tokens is zero")
    let headroom = reserve_from policy.headroom device.free_bytes
    let after_headroom = sub64 device.free_bytes headroom
    let usable = after_headroom - model.dense_weights_bytes
    refuse (ltb after_headroom model.dense_weights_bytes)
        (weights_do_not_fit model.dense_weights_bytes after_headroom)
    allocate model policy want usable headroom
        (Reason.budget device.free_bytes headroom model.dense_weights_bytes usable ∷ [])

  unfoldable pub max_context_tokens : DeviceMemory → ModelFootprint → Policy fl.F64 → Planned ℕ
  max_context_tokens device model policy = do
    a ← plan device model policy Context.largest
    ok a.context_tokens
