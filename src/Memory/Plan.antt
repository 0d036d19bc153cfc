-- ===== src/Memory/Plan.antt =====
-- The theorems of `plan`: what it returns is sound, and it returns whenever the card can serve.
use mo_earc.Common.{
  ℕ, ◌+◌, ◌*◌, ◌-◌, ◌≤◌, ◌<◌, ◌≡◌, ◌↔◌, refl, arith, ltb, ltb→le, le→ltb, ◌==◌, Bool, sub64,
  sub64_exact, mul-le_right, List, [], ◌∷◌,
}
use mo_earc.Common.Float.{Float, ShareBounded, exact_max}
use mo_earc.Common.Results.{ok, >>=-eq-ok, refuse, refuse-eq-ok}
use mo_earc.Memory.Types.{
  DeviceMemory, ModelFootprint, Headroom, Policy, Context, Reason, Allocation, committed_bytes,
}
use mo_earc.Memory.Planner.{validate, pages_for, reserve_from, allocate, plan}
use mo_earc.Memory.Sound.{
  IsConsistent, validate-IsConsistent, validate_of_IsConsistent, IsMachine, IsSound,
  allocate-IsSound, headroom-allocate,
}
use mo_earc.Memory.Accept.{wanted_pages, IsRequest, allocate_complete}

-- The reserve never exceeds what is free, so `plan`'s subtraction does not wrap.
pub reserve_from-le :
    (fl : Float) (h : Headroom fl.F64) (free : ℕ)
    → ShareBounded fl
    → free ≤ exact_max
    → reserve_from fl h free ≤ free
unfolding reserve_from
reserve_from-le fl (Headroom.fraction f) free bounded small = bounded f free small
reserve_from-le fl (Headroom.bytes b) free bounded small = omega arith

pos_of_test : (n : ℕ) → (n == 0) ≡ Bool.false → 0 < n
pos_of_test n h = ground arith

test_of_pos : (n : ℕ) → 0 < n → (n == 0) ≡ Bool.false
test_of_pos n h = ground arith

wanted_pages-le :
    {F : Type 0} (policy : Policy F) (want : Context) (pages : ℕ)
    → pages_for policy.min_context_tokens policy.page_tokens ≤ pages
    → ((n : ℕ) → want ≡ Context.tokens n → pages ≡ pages_for n policy.page_tokens)
    → (pages_for policy.min_context_tokens policy.page_tokens ≤ wanted_pages policy want)
      × (wanted_pages policy want ≤ pages)
unfolding wanted_pages
wanted_pages-le policy (Context.tokens n) pages floor serves = omega (arith, serves n refl)
wanted_pages-le policy Context.largest pages floor serves = omega arith

-- What a plan promises about the whole card.
pub record IsPlan {F : Type 0} (device : DeviceMemory) (model : ModelFootprint) (policy : Policy F)
    (want : Context) (a : Allocation) : Type 0 where
  pub within_free : committed_bytes a model + a.headroom_bytes ≤ device.free_bytes
  pub sound :
      IsSound model policy want (device.free_bytes - a.headroom_bytes - model.dense_weights_bytes) a

module _ (fl : Float) (device : DeviceMemory) (model : ModelFootprint) (policy : Policy fl.F64)
    (want : Context) where
  abbrev reserve : ℕ
  reserve = reserve_from fl policy.headroom device.free_bytes

  abbrev rest_of_free : ℕ
  rest_of_free = device.free_bytes - reserve - model.dense_weights_bytes

  abbrev budget : List Reason
  budget = Reason.budget device.free_bytes reserve model.dense_weights_bytes rest_of_free ∷ []

  -- The checks that a successful plan has passed, in exact arithmetic.
  record Passed (a : Allocation) : Type 0 where
    consistent : IsConsistent model
    page_pos : 0 < policy.page_tokens
    weights_fit : model.dense_weights_bytes + reserve ≤ device.free_bytes
    allocated : allocate model policy want rest_of_free reserve budget ≡ ok a

  -- The demand that the planner has to meet: the weights, the reserve, the active experts and the
  -- wanted pages.
  pub record IsAffordable : Type 0 where
    pub consistent : IsConsistent model
    pub page_pos : 0 < policy.page_tokens
    pub above_floor :
        pages_for policy.min_context_tokens policy.page_tokens ≤ wanted_pages policy want
    pub demand_fits :
        model.dense_weights_bytes
          + reserve
          + model.per_expert_bytes * model.active_experts
          + model.kv_bytes_per_token * policy.page_tokens * wanted_pages policy want
        ≤ device.free_bytes

  module _ (bounded : ShareBounded fl) (small : device.free_bytes ≤ exact_max) where
    free-reserve : sub64 device.free_bytes reserve ≡ device.free_bytes - reserve
    free-reserve =
        sub64_exact device.free_bytes reserve
          (reserve_from-le fl policy.headroom device.free_bytes bounded small) (omega arith)

    plan-Passed : {a : Allocation} → plan fl device model policy want ≡ ok a → Passed a
    unfolding plan
    plan-Passed {a} h =
        let (u, valid, h') = >>=-eq-ok (validate model) _ h in
        let (u', paged, h'') = >>=-eq-ok (refuse (policy.page_tokens == 0) _) _ h' in
        let (u'', weights, last) =
          >>=-eq-ok (refuse (ltb (sub64 device.free_bytes reserve) model.dense_weights_bytes) _) _
            h'' in
        record {
          consistent = validate-IsConsistent model valid;
          page_pos = pos_of_test policy.page_tokens (refuse-eq-ok _ _ paged);
          weights_fit = omega (
            arith,
            free-reserve,
            reserve_from-le fl policy.headroom device.free_bytes bounded small,
            ltb→le _ _ (refuse-eq-ok _ _ weights),
          );
          allocated = rw free-reserve at last;
        }

    -- For a model and a policy in machine range, at most 2^53 free bytes, and a share of `f64` that
    -- does not exceed the whole: a plan commits no more than is free, with its sums exact and both
    -- floors kept, at least the active experts resident and at least the policy's minimum context, and
    -- it serves a requested context in full.
    pub plan-IsPlan :
        {a : Allocation}
        → IsMachine model policy
        → plan fl device model policy want ≡ ok a
        → IsPlan device model policy want a
    unfolding committed_bytes
    plan-IsPlan {a} m h =
        let p = plan-Passed h in
        let s =
          allocate-IsSound model policy want rest_of_free reserve p.consistent m (omega arith)
            p.page_pos budget p.allocated in
        let e = headroom-allocate model policy want rest_of_free reserve budget p.allocated in
        record { within_free = omega (arith, e, s.fits, p.weights_fit); sound = simp e s }

    plan_of_affordable :
        IsMachine model policy
        → IsRequest want
        → IsAffordable
        → (a : Allocation) × (plan fl device model policy want ≡ ok a)
    unfolding plan
    plan_of_affordable m range f =
        let (a, e) =
          allocate_complete model policy rest_of_free f.consistent m (omega arith) f.page_pos want
            reserve budget range f.above_floor (omega (arith, f.demand_fits)) in
        (
          a,
          rw
              (
                validate_of_IsConsistent model f.consistent,
                test_of_pos policy.page_tokens f.page_pos,
                free-reserve,
              )
              (rw
                (le→ltb model.dense_weights_bytes (device.free_bytes - reserve)
                  (omega (arith, f.demand_fits)))
                e),
        )

    affordable_of_plan :
        {a : Allocation}
        → IsMachine model policy
        → plan fl device model policy want ≡ ok a
        → IsAffordable
    affordable_of_plan {a} m h =
        let p = plan-Passed h in
        let s =
          allocate-IsSound model policy want rest_of_free reserve p.consistent m (omega arith)
            p.page_pos budget p.allocated in
        let (above, within) = wanted_pages-le policy want a.kv_pages s.floor_pages s.serves in
        record {
          consistent = p.consistent;
          page_pos = p.page_pos;
          above_floor = above;
          demand_fits = omega (
            arith,
            p.weights_fit,
            s.fits,
            s.experts_exact,
            s.kv_exact,
            mul-le_right model.per_expert_bytes model.active_experts a.resident_experts
                s.active_resident,
            mul-le_right (model.kv_bytes_per_token * policy.page_tokens) (wanted_pages policy want)
                a.kv_pages within,
          );
        }

    -- For a model, a policy and a request in machine range, at most 2^53 free bytes, and a share of `f64`
    -- that does not exceed the whole: `plan` succeeds exactly when the model is consistent (it has an expert,
    -- between one and all of its experts are active, and the bytes of an expert and of a token of context
    -- are positive), a page has a token, the request needs no fewer pages than the policy's minimum
    -- context, and the free bytes hold the weights, the reserve, the active experts and the pages
    -- of the request.
    pub plan-iff-IsAffordable :
        IsMachine model policy
        → IsRequest want
        → ((a : Allocation) × (plan fl device model policy want ≡ ok a)) ↔ IsAffordable
    plan-iff-IsAffordable m range =
        (λ found. affordable_of_plan m found.1, plan_of_affordable m range)
