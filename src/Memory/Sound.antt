-- ===== src/Memory/Sound.antt =====
-- What an allocation promises, from the checks on the model to the last phase of the planner.
use mo_earc.Common.{
  ℕ, ◌+◌, ◌*◌, ◌≤◌, ◌<◌, ◌≡◌, ◌⊎◌, min, inl, inr, ◌∙◌, mul64_exact, arith, u32_max, u64_max,
  sat_mul32, sat_mul64, Option, none, some, List, ◌++◌, div_ceil_bounds, div_ceil-le_of_fits,
}
use mo_earc.Common.Float.{exact_max}
use mo_earc.Common.Results.{ok, >>=-eq-ok}
use mo_earc.Memory.Types.{ModelFootprint, Policy, Context, Reason, Allocation}
use mo_earc.Memory.Planner.{
  validate, Terms, terms, policy_cap, pages_for, check_floors, first_resident, settle, finish,
  allocation, allocate,
}
use mo_earc.Memory.Feasible.{IsFeasible, first_resident-IsHeld, expert_bytes_exact}
use mo_earc.Memory.Settle.{IsSettled, settle-IsSettled}

-- What `validate` checks.
pub record IsConsistent (model : ModelFootprint) : Type 0 where
  pub total_pos : 0 < model.total_experts
  pub active_pos : 0 < model.active_experts
  pub active_le_total : model.active_experts ≤ model.total_experts
  pub per_expert_pos : 0 < model.per_expert_bytes
  pub kv_pos : 0 < model.kv_bytes_per_token

pub validate-IsConsistent : (model : ModelFootprint) → validate model ≡ ok tt → IsConsistent model
unfolding validate
validate-IsConsistent model h = ground arith

pub validate_of_IsConsistent :
    (model : ModelFootprint) → IsConsistent model → validate model ≡ ok tt
unfolding validate
validate_of_IsConsistent model c = ground arith

-- The ranges of the `u32` fields that the planner multiplies.
pub record IsMachine {F : Type 0} (model : ModelFootprint) (policy : Policy F) : Type 0 where
  pub total_small : model.total_experts ≤ u32_max
  pub min_context_small : policy.min_context_tokens ≤ u32_max

policy_cap-le : (limit : Option ℕ) (total : ℕ) → policy_cap limit total ≤ total
unfolding policy_cap
policy_cap-le none total = omega arith
policy_cap-le (some c) total = omega arith

pub pages_for-le : (n d : ℕ) → 0 < d → pages_for n d ≤ n
pages_for-le n d h = div_ceil-le_of_fits n d n (omega arith) (grind arith)

sat_mul64_pos : (a b : ℕ) → 0 < a → 0 < b → 0 < sat_mul64 a b
sat_mul64_pos a b h k = let p : 0 < a * b = grind arith in omega arith

-- The two floor checks, in exact arithmetic.
check_floors-fits :
    (t : Terms) (usable minimum : ℕ)
    → check_floors t usable minimum ≡ ok tt
    → (t.floor_bytes ≤ usable) × (min (t.floor_bytes + t.min_kv_bytes) u64_max ≤ usable)
unfolding check_floors
check_floors-fits t usable minimum h = ground arith

module _ {F : Type 0} (model : ModelFootprint) (policy : Policy F) (usable : ℕ) where
  module _ (c : IsConsistent model) (m : IsMachine model policy) (small : usable ≤ exact_max)
      (pos : 0 < policy.page_tokens) where
    pub terms-IsFeasible :
        check_floors (terms model policy) usable policy.min_context_tokens ≡ ok tt
        → IsFeasible (terms model policy) usable
    unfolding terms
    terms-IsFeasible h =
        let (floor, both) = check_floors-fits (terms model policy) usable _ h in
        record {
          per_expert_pos = c.per_expert_pos;
          page_pos = sat_mul64_pos _ _ c.kv_pos pos;
          page_tokens_pos = pos;
          active_pos = c.active_pos;
          active_le_cap = omega arith;
          cap_le_total = omega (
            arith,
            c.active_le_total,
            policy_cap-le policy.max_resident_experts model.total_experts,
          );
          cap_small = omega (
            arith,
            c.active_le_total,
            m.total_small,
            policy_cap-le policy.max_resident_experts model.total_experts,
          );
          pages_small = omega (
            arith,
            pages_for-le policy.min_context_tokens policy.page_tokens pos,
            m.min_context_small,
          );
          small = small;
          min_kv_exact = omega arith;
          floors_fit = omega arith;
        }

-- The last phase succeeds exactly on enough pages.
pub finish_lem :
    (t : Terms) (usable : ℕ) (limit : Option ℕ) (minimum : ℕ) (want : Context) (headroom : ℕ)
    (before : List Reason) (pages r : ℕ) {a : Allocation}
    → finish t usable limit minimum want headroom before pages r ≡ ok a
    → (t.min_pages ≤ pages) × (a ≡ allocation t usable limit want headroom before pages r)
unfolding finish
finish_lem t usable limit minimum want headroom before pages r h = ground arith

-- What a successful plan promises: exact sums, within the usable bytes and both floors, and the
-- request served.
pub record IsSound {F : Type 0} (model : ModelFootprint) (policy : Policy F) (want : Context)
    (usable : ℕ) (a : Allocation) : Type 0 where
  pub experts_exact : a.expert_bytes ≡ model.per_expert_bytes * a.resident_experts
  pub kv_exact : a.kv_bytes ≡ model.kv_bytes_per_token * policy.page_tokens * a.kv_pages
  pub fits : a.expert_bytes + a.kv_bytes ≤ usable
  pub active_resident : model.active_experts ≤ a.resident_experts
  pub resident_le_total : a.resident_experts ≤ model.total_experts
  pub floor_pages : pages_for policy.min_context_tokens policy.page_tokens ≤ a.kv_pages
  pub serves : (n : ℕ) → want ≡ Context.tokens n → a.kv_pages ≡ pages_for n policy.page_tokens
  pub min_context : policy.min_context_tokens ≤ a.context_tokens
  pub request : (n : ℕ) → want ≡ Context.tokens n → min n u32_max ≤ a.context_tokens

-- The page size saturates only where no page fits.
kv_exact_arith :
    (kv page pages left : ℕ)
    → min (kv * page) u64_max * pages ≤ left
    → left ≤ exact_max
    → min (kv * page) u64_max * pages ≡ kv * page * pages
kv_exact_arith kv page pages left h small = elim (saturates) [
  | inl e ↦ rw e
  | inr e ↦
      let h' : u64_max * pages ≤ left = rw e at h in
      let none_fit : pages ≡ 0 = omega arith in rw none_fit (omega arith)
]
  where
    saturates : (min (kv * page) u64_max ≡ kv * page) ⊎ (min (kv * page) u64_max ≡ u64_max)
    saturates = omega arith

-- Whole pages hold the tokens, in saturating arithmetic too.
context_arith : (n d pages : ℕ) → 0 < d → pages_for n d ≤ pages → min n u32_max ≤ sat_mul32 pages d
context_arith n d pages pos h =
    let (lo, hi) = div_ceil_bounds n d (omega arith) in
    let more : pages_for n d * d ≤ pages * d = grind arith in omega arith

module _ {F : Type 0} (model : ModelFootprint) (policy : Policy F) (want : Context)
    (usable headroom : ℕ) where
  module _ (c : IsConsistent model) (m : IsMachine model policy) (small : usable ≤ exact_max)
      (pos : 0 < policy.page_tokens) where
    settled-IsSound :
        (before : List Reason) (pages r : ℕ)
        → IsFeasible (terms model policy) usable
        → IsSettled (terms model policy) usable want pages r
        → (terms model policy).min_pages ≤ pages
        → IsSound model policy want usable (
            allocation
              (terms model policy)
              usable
              policy.max_resident_experts
              want
              headroom
              before
              pages
              r)
    unfolding allocation terms
    settled-IsSound before pages r v s enough =
        let bpp = sat_mul64 model.kv_bytes_per_token policy.page_tokens in
        let exact =
          kv_exact_arith model.kv_bytes_per_token policy.page_tokens pages usable
            (omega (arith, s.fits)) small in
        record {
          experts_exact = expert_bytes_exact (terms model policy) usable r v s.held;
          kv_exact = mul64_exact bpp pages (omega (arith, s.fits)) ∙ exact;
          fits = omega (arith, s.fits, mul64_exact bpp pages, mul64_exact model.per_expert_bytes r);
          active_resident = s.held.at_least;
          resident_le_total = omega (arith, s.held.at_most, v.cap_le_total);
          floor_pages = enough;
          serves = s.serves;
          min_context = omega (
            arith,
            m.min_context_small,
            context_arith policy.min_context_tokens policy.page_tokens pages pos enough,
          );
          request = λ n same.
              context_arith n policy.page_tokens pages pos (omega (arith, s.serves n same));
        }

    -- Whatever `allocate` returns is sound.
    pub allocate-IsSound :
        (before : List Reason) {a : Allocation}
        → allocate model policy want usable headroom before ≡ ok a
        → IsSound model policy want usable a
    unfolding allocate
    allocate-IsSound before {a} h =
        let t = terms model policy in
        let (checked, floors, rest) =
          >>=-eq-ok (check_floors t usable policy.min_context_tokens) _ h in
        let ((pages, r, more), settles, last) =
          >>=-eq-ok (settle t usable policy.bias want (first_resident t usable policy.bias want)) _
            rest in
        let v = terms-IsFeasible model policy usable c m small pos floors in
        let s =
          settle-IsSettled t usable v policy.bias want _
            (first_resident-IsHeld t usable policy.bias want v) settles in
        let (enough, e) =
          finish_lem t usable policy.max_resident_experts policy.min_context_tokens want headroom
            (before ++ more) pages r last in
        rw e (settled-IsSound (before ++ more) pages r v s enough)

-- The headroom is reported as it was taken.
pub headroom-allocate :
    {F : Type 0} (model : ModelFootprint) (policy : Policy F) (want : Context) (usable headroom : ℕ)
    (before : List Reason) {a : Allocation}
    → allocate model policy want usable headroom before ≡ ok a
    → a.headroom_bytes ≡ headroom
unfolding allocate allocation
headroom-allocate model policy want usable headroom before h =
    let t = terms model policy in
    let (checked, floors, rest) = >>=-eq-ok (check_floors t usable policy.min_context_tokens) _ h in
    let ((pages, r, more), settles, last) =
      >>=-eq-ok (settle t usable policy.bias want (first_resident t usable policy.bias want)) _
        rest in
    let (enough, e) =
      finish_lem t usable policy.max_resident_experts policy.min_context_tokens want headroom
        (before ++ more) pages r last in
    rw e
