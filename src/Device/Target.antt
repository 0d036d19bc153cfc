-- ===== src/Device/Target.antt =====
-- The budget of a device, and a preferred device that is discrete.
use mo_earc.Common.{
  ℕ, ◌≡◌, ◌⊎◌, inl, inr, refl, sym, ap, ◌∙◌, min, Bool, true, false, not, Bool-cases, false≢true,
  if◌then◌else◌, Option, none, some, Option-cases, none≢some, List, [], ◌∷◌,
}
use mo_earc.Common.Results.{ok, err}
use mo_earc.Device.Types.{
  GpuDevice, DeviceReport, DeviceTelemetry, BudgetSource, VramBudget, Unusable, shares_host_memory,
}
use mo_earc.Device.Fitness.{
  first_discrete, preferred, measured, evidence, vram_budget, reading_for, of_class, discrete_first,
  first_fit, inference_target,
}

-- A budget that may be planned against: what was measured on the device, capped at what it has, or, for a
-- discrete card without a reading, what it has.
unfoldable pub IsBudget : GpuDevice → Option DeviceTelemetry → VramBudget → Type 0
IsBudget d live b =
    ((free : ℕ) × (measured live ≡ some free)
      × (b ≡ record { bytes = min free d.total_memory_bytes; source = BudgetSource.measured_free }))
    ⊎ ((measured live ≡ none)
        × (d.is_integrated ≡ false)
        × (b ≡ record { bytes = d.total_memory_bytes; source = BudgetSource.installed_vram }))

if_true : {A : Type 0} (x y : A) {b : Bool} → b ≡ true → (if b then x else y) ≡ x
if_true x y h = rw h refl

if_false : {A : Type 0} (x y : A) {b : Bool} → b ≡ false → (if b then x else y) ≡ y
if_false x y h = rw h refl

module _ (host_ram_bytes : Option ℕ) (readings : List DeviceTelemetry) where
  pub vram_budget-cases :
      (d : GpuDevice) (live : Option DeviceTelemetry)
      → ((b : VramBudget) × (vram_budget host_ram_bytes d live ≡ ok b) × IsBudget d live b)
        ⊎ ((r : Unusable) × (vram_budget host_ram_bytes d live ≡ err r)
            × (d.is_integrated ≡ true)
            × (measured live ≡ none)
            × (r ≡ shares_host_memory d.name d.total_memory_bytes host_ram_bytes (evidence live)))
  unfolding vram_budget IsBudget
  vram_budget-cases d live = elim (Option-cases (measured live)) [
    | inr (free, there) ↦ inl (
      record { bytes = min free d.total_memory_bytes; source = BudgetSource.measured_free },
      rw (there, vram_budget) refl,
      inl (free, there, refl),
    )
    | inl unread ↦ elim (Bool-cases d.is_integrated) [
      | inl shared ↦ inr (
        shares_host_memory d.name d.total_memory_bytes host_ram_bytes (evidence live),
        rw (unread, vram_budget) (if_true _ _ shared),
        shared,
        unread,
        refl,
      )
      | inr own ↦ inl (
        record { bytes = d.total_memory_bytes; source = BudgetSource.installed_vram },
        rw (unread, vram_budget) (if_false _ _ own),
        inr (unread, own, refl),
      )
    ]
  ]

  discrete_class :
      (ds : List GpuDevice) {d : GpuDevice}
      → first_discrete ds ≡ some d
      → (rest : List GpuDevice) × (of_class false ds ≡ d ∷ rest) × (d.is_integrated ≡ false)
  unfolding first_discrete of_class
  discrete_class [] h = cc
  discrete_class (x ∷ xs) {d} h = by_class (λ k. discrete_class xs k) x.is_integrated refl h
    where
      by_class :
          (first_discrete xs ≡ some d
            → (rest : List GpuDevice) × (of_class false xs ≡ d ∷ rest) × (d.is_integrated ≡ false))
          → (b : Bool) → x.is_integrated ≡ b
          → (if b then first_discrete xs else some x) ≡ some d
          → (rest : List GpuDevice) × ((if not b then x ∷ of_class false xs else of_class false xs)
              ≡ d ∷ rest)
            × (d.is_integrated ≡ false)
      by_class later true e k = later k
      by_class later false e k =
          let same : x ≡ d = cc in
          (
            of_class false xs,
            ap (λ y. y ∷ of_class false xs) same,
            sym (ap (λ y. y.is_integrated) same) ∙ e,
          )

  own_first :
      (x : GpuDevice) (xs : List GpuDevice)
      → x.is_integrated ≡ false
      → first_discrete (x ∷ xs) ≡ some x
  unfolding first_discrete
  own_first x xs own = if_false (first_discrete xs) (some x) own

  preferred_discrete :
      (report : DeviceReport) {d : GpuDevice}
      → preferred report ≡ some d
      → d.is_integrated ≡ false
      → first_discrete report.devices ≡ some d
  unfolding preferred first_discrete
  preferred_discrete report {d} h own = by_devices report.devices h
    where
      by_devices :
          (ds : List GpuDevice)
          → (elim (first_discrete ds) as (λ x. Option GpuDevice) [
            | some x ↦ some x
            | none ↦ elim ds as (λ x. Option GpuDevice) [ [] ↦ none | ◌∷◌ x xs ↦ some x ]
          ])
            ≡ some d
          → first_discrete ds ≡ some d
      by_devices [] k = k
      by_devices (x ∷ xs) k = elim (Option-cases (first_discrete (x ∷ xs))) [
        | inr (y, found) ↦ found ∙ (rw found at k)
        | inl nobody ↦
            let k' : some x ≡ some d = rw nobody at k in
            let same : x ≡ d = cc in
            absurd (none≢some nobody (own_first x xs (ap (λ y. y.is_integrated) same ∙ own)))
      ]

  -- Where the preferred device is discrete, it is the target, whatever the readings say, with a budget that
  -- is its own.
  pub inference_target-preferred :
      (report : DeviceReport) {d : GpuDevice}
      → preferred report ≡ some d
      → d.is_integrated ≡ false
      → (b : VramBudget) × (inference_target host_ram_bytes report readings ≡ ok (d, b))
        × IsBudget d (reading_for readings d) b
  unfolding inference_target discrete_first first_fit
  inference_target-preferred report {d} h own =
      let (rest, order, own') = discrete_class report.devices (preferred_discrete report h own) in
      elim (vram_budget-cases d (reading_for readings d)) [
        | inl (b, fits, is) ↦ (b, rw (order, inference_target) (rw (fits, first_fit) refl), is)
        | inr (r, refuses, shared, unread, says) ↦ absurd (false≢true (sym own ∙ shared))
      ]
