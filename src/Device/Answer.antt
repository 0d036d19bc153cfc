-- ===== src/Device/Answer.antt =====
-- What `inference_target` answers, said of the report and the readings themselves.
use mo_earc.Common.{
  ℕ, ◌≡◌, ◌⊎◌, inl, inr, refl, ap, ◌∙◌, sym, false≢true, min, Bool, true, false, Bool-cases,
  if◌then◌else◌, Option, none, some, none≢some, List, [], ◌∷◌, ◌++◌, All,
}
use mathlib.Core.List.{append_assoc, append-nil}
use mo_earc.Common.Results.{Result, ok, err}
use mo_earc.Device.Types.{
  GpuDevice, DeviceReport, DeviceTelemetry, BudgetSource, VramBudget, LocalMemoryEvidence,
  not_measured, none_on_device, Unusable, shares_host_memory, NoUsableDevice,
}
use mo_earc.Device.Fitness.{
  host_memory_bytes, evidence, vram_budget, reading_for, of_class, discrete_first, first_fit,
  inference_target,
}
use mo_earc.Device.Target.{IsBudget, vram_budget-cases}
use mo_earc.Device.HostSide.{IsHostMemory, host_memory_bytes-IsHostMemory}
use mo_earc.Device.Reading.{
  IsReading, IsMeasured, IsUnmeasured, reading_for-IsReading, measured-cases,
}

unfoldable pub AllIntegrated : List GpuDevice → Type 0
AllIntegrated ds = All (λ d. d.is_integrated ≡ true) ds

-- What a refusal says of a reading: there is none, or the memory of the host that it shows.
unfoldable pub IsEvidence : Option DeviceTelemetry → LocalMemoryEvidence → Type 0
IsEvidence none e = e ≡ not_measured
IsEvidence (some reading) e =
    (host : Option ℕ) × (e ≡ none_on_device host) × IsHostMemory reading.memory host

module _ (host_ram_bytes : Option ℕ) (readings : List DeviceTelemetry) where
  -- The free memory that is measured on the device, at most its total, or, for a discrete card without
  -- such a measurement, its total.
  unfoldable pub HasBudget : GpuDevice → VramBudget → Type 0
  HasBudget d b =
      (live : Option DeviceTelemetry) × IsReading readings d live
      × (((free : ℕ) × IsMeasured live free
            × (b ≡ record {
              bytes = min free d.total_memory_bytes;
              source = BudgetSource.measured_free;
            }))
          ⊎ (IsUnmeasured live
              × (d.is_integrated ≡ false)
              × (b
                  ≡ record { bytes = d.total_memory_bytes; source = BudgetSource.installed_vram })))

  -- A device without memory that is measured on it.
  unfoldable pub HasNone : GpuDevice → Type 0
  HasNone d = (live : Option DeviceTelemetry) × IsReading readings d live × IsUnmeasured live

  unfoldable pub IsRefusal : GpuDevice → Unusable → Type 0
  IsRefusal d r =
      (live : Option DeviceTelemetry) × IsReading readings d live
      × IsUnmeasured live
      × ((e : LocalMemoryEvidence) × IsEvidence live e
          × (r ≡ shares_host_memory d.name d.total_memory_bytes host_ram_bytes e))

  -- One refusal for each device, in their order.
  unfoldable pub AreRefusals : List GpuDevice → List Unusable → Type 0
  AreRefusals [] [] = Unit
  AreRefusals [] (r ∷ rs) = ⊥
  AreRefusals (d ∷ ds) [] = ⊥
  AreRefusals (d ∷ ds) (r ∷ rs) = IsRefusal d r × AreRefusals ds rs

  -- The device that is taken: the first discrete one, or, where there is none, the first one that has
  -- memory measured on it.
  unfoldable pub IsTarget : List GpuDevice → GpuDevice → Type 0
  IsTarget ds d =
      (before : List GpuDevice) × (after : List GpuDevice) × (ds ≡ before ++ (d ∷ after))
      × (((d.is_integrated ≡ false) × AllIntegrated before)
          ⊎ (AllIntegrated ds × All HasNone before))

  unfoldable pub IsAnswer : DeviceReport → Result NoUsableDevice (GpuDevice × VramBudget) → Type 0
  IsAnswer report (ok (d, b)) = IsTarget report.devices d × HasBudget d b
  IsAnswer report (err e) = AllIntegrated report.devices × AreRefusals report.devices e.refusals

  evidence-IsEvidence : (live : Option DeviceTelemetry) → IsEvidence live (evidence live)
  unfolding evidence IsEvidence
  evidence-IsEvidence none = refl
  evidence-IsEvidence (some reading) =
      (host_memory_bytes reading, refl, host_memory_bytes-IsHostMemory reading)

  IsBudget-HasBudget :
      (d : GpuDevice) (b : VramBudget) → IsBudget d (reading_for readings d) b → HasBudget d b
  unfolding IsBudget HasBudget
  IsBudget-HasBudget d b is =
      let live = reading_for readings d in
      (
        live,
        reading_for-IsReading readings d,
        elim is [
          | inl (free, there, same) ↦ elim (measured-cases live) [
            | inl (n, counted, there') ↦ let e : n ≡ free = cc in inl (free, rw e at counted, same)
            | inr (nothing, unread) ↦ absurd (none≢some unread there)
          ]
          | inr (unread, own, same) ↦ elim (measured-cases live) [
            | inl (n, counted, there) ↦ absurd (none≢some unread there)
            | inr (nothing, unread') ↦ inr (nothing, own, same)
          ]
        ],
      )

  -- A device has a budget, or it is integrated and refused.
  device-cases :
      (d : GpuDevice)
      → ((b : VramBudget) × (vram_budget host_ram_bytes d (reading_for readings d) ≡ ok b)
          × HasBudget d b)
        ⊎ ((r : Unusable) × (vram_budget host_ram_bytes d (reading_for readings d) ≡ err r)
            × (d.is_integrated ≡ true)
            × IsRefusal d r)
  unfolding IsRefusal
  device-cases d =
      let live = reading_for readings d in
      elim (vram_budget-cases host_ram_bytes readings d live) [
        | inl (b, fits, is) ↦ inl (b, fits, IsBudget-HasBudget d b is)
        | inr (r, refuses, shared, unread, says) ↦ elim (measured-cases live) [
          | inl (n, counted, there) ↦ absurd (none≢some unread there)
          | inr (nothing, unread') ↦ inr (
            r,
            refuses,
            shared,
            (
              live,
              reading_for-IsReading readings d,
              nothing,
              (evidence live, evidence-IsEvidence live, says),
            ),
          )
        ]
      ]

  IsRefusal-HasNone : (d : GpuDevice) (r : Unusable) → IsRefusal d r → HasNone d
  unfolding IsRefusal HasNone
  IsRefusal-HasNone d r (live, is, nothing, says) = (live, is, nothing)

  first_fit-cases :
      (order : List GpuDevice) (refusals : List Unusable)
      → ((d : GpuDevice) × (b : VramBudget) × (before : List GpuDevice) × (after : List GpuDevice)
          × (first_fit host_ram_bytes readings order refusals ≡ ok (d, b))
          × (order ≡ before ++ (d ∷ after))
          × All HasNone before
          × HasBudget d b)
        ⊎ ((new : List Unusable) × (first_fit host_ram_bytes readings order refusals
              ≡ err (refusals ++ new))
            × AreRefusals order new)
  unfolding first_fit AreRefusals
  first_fit-cases [] refusals = inr ([], ap err (sym (append-nil refusals)), tt)
  first_fit-cases (d ∷ ds) refusals = elim (device-cases d) [
    | inl (b, fits, has) ↦ inl (d, b, [], ds, rw (fits, first_fit) refl, refl, tt, has)
    | inr (r, refuses, shared, is) ↦ elim (first_fit-cases ds (refusals ++ (r ∷ []))) [
      | inl (d', b, before, after, found, place, nothing, has) ↦ inl (
        d',
        b,
        d ∷ before,
        after,
        rw (refuses, first_fit) found,
        ap (◌∷◌ d) place,
        (IsRefusal-HasNone d r is, nothing),
        has,
      )
      | inr (new, nobody, are) ↦ inr (
        r ∷ new,
        rw (refuses, first_fit) (nobody ∙ ap err (append_assoc refusals (r ∷ []) new)),
        (is, are),
      )
    ]
  ]

  -- The first discrete device of a list, or none where all are integrated.
  of_class-cases :
      (ds : List GpuDevice)
      → ((d : GpuDevice) × (before : List GpuDevice) × (after : List GpuDevice) × (ds
            ≡ before ++ (d ∷ after))
          × AllIntegrated before
          × (d.is_integrated ≡ false)
          × ((rest : List GpuDevice) × (of_class false ds ≡ d ∷ rest)))
        ⊎ (AllIntegrated ds × (of_class false ds ≡ []) × (of_class true ds ≡ ds))
  unfolding of_class AllIntegrated
  of_class-cases [] = inr (tt, refl, refl)
  of_class-cases (x ∷ xs) = elim (Bool-cases x.is_integrated) [
    | inr own ↦ inl (x, [], xs, refl, tt, own, (of_class false xs, rw own refl))
    | inl shared ↦ elim (of_class-cases xs) [
      | inl (d, before, after, place, all, own, (rest, order)) ↦
          inl (d, x ∷ before, after, ap (◌∷◌ x) place, (shared, all), own, (rest, rw shared order))
      | inr (all, nothing, same) ↦
          inr
            ((shared, all), rw shared nothing, stays x.is_integrated shared (of_class true xs) same)
    ]
  ]
    where
      stays :
          (b : Bool)
          → b ≡ true
          → (kept : List GpuDevice) → kept ≡ xs
          → (if b then x ∷ kept else kept) ≡ x ∷ xs
      stays true h kept e = ap (◌∷◌ x) e
      stays false h kept e = absurd (false≢true h)

  -- A target is the first discrete device of the report or, where all are integrated, the first that has
  -- memory measured on it. Its budget is the free memory measured on the device, at most its total, or,
  -- for a discrete card without such a measurement, its total. That memory is the sum over the modules on
  -- the device in the first reading with the device's UUID, which stops at 2^64 - 1. Where there is no
  -- target, every device of the report is integrated and has no memory measured on it, and the refusals
  -- are those of the devices, one for each in their order, with its name, its total, the RAM of the
  -- machine, and that it has no reading or the sum of the known capacities in it, if one is known.
  pub inference_target-IsAnswer :
      (report : DeviceReport) → IsAnswer report (inference_target host_ram_bytes report readings)
  unfolding inference_target IsAnswer IsTarget discrete_first first_fit
  inference_target-IsAnswer report = elim (of_class-cases report.devices) [
    | inl (d, before, after, place, all, own, (rest, order)) ↦ elim (device-cases d) [
      | inl (b, fits, has) ↦
          rw (order, inference_target, IsAnswer)
            (rw (fits, first_fit, IsAnswer) ((before, after, place, inl (own, all)), has))
      | inr (r, refuses, shared, is) ↦ absurd (false≢true (sym own ∙ shared))
    ]
    | inr (all, nothing, same) ↦ elim (first_fit-cases report.devices []) [
      | inl (d, b, before, after, found, place, without, has) ↦
          rw (nothing, same, inference_target, IsAnswer)
            (rw (found, IsAnswer) ((before, after, place, inr (all, without)), has))
      | inr (new, nobody, are) ↦
          rw (nothing, same, inference_target, IsAnswer) (rw (nobody, IsAnswer) (all, are))
    ]
  ]
