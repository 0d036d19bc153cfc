-- ===== src/Device/Reading.antt =====
-- The reading of a device, and the memory that is measured on it, said without the loops of the code.
use mo_earc.Common.{
  ℕ, ◌+◌, ◌≤◌, ◌≡◌, ◌≢◌, ◌⊎◌, inl, inr, refl, ap, ◌∙◌, sym, arith, min, u64_max, sat_add64, Bool,
  true, false, Bool-cases, ◌==◌, if◌then◌else◌, Option, none, some, List, [], ◌∷◌, ◌++◌, All,
}
use mo_earc.Device.Types.{GpuDevice, MemoryModule, DeviceTelemetry}
use mo_earc.Device.Fitness.{
  modules, free_from, free_of, free_device_memory_bytes, measured, reading_for,
}

-- The first reading with the UUID of a device, or none where every reading has another.
unfoldable pub IsReading : List DeviceTelemetry → GpuDevice → Option DeviceTelemetry → Type 0
IsReading readings d none = All (λ r. r.uuid ≢ d.uuid) readings
IsReading readings d (some r) =
    (before : List DeviceTelemetry) × (after : List DeviceTelemetry) × (readings
      ≡ before ++ (r ∷ after))
    × All (λ other. other.uuid ≢ d.uuid) before
    × (r.uuid ≡ d.uuid)

-- The free bytes of the modules on the device.
unfoldable pub local_free : List MemoryModule → ℕ
local_free [] = 0
local_free (m ∷ ms) = let rest = local_free ms in if m.on_device then m.free_bytes + rest else rest

unfoldable pub HasLocal : List MemoryModule → Type 0
HasLocal ms =
    (before : List MemoryModule) × (m : MemoryModule) × (after : List MemoryModule) × (ms
      ≡ before ++ (m ∷ after))
    × (m.on_device ≡ true)

unfoldable pub HasNoLocal : List MemoryModule → Type 0
HasNoLocal ms = All (λ m. m.on_device ≡ false) ms

-- A reading with memory on the device, and the sum of what is free in it, which stops at 2^64 - 1.
unfoldable pub IsMeasured : Option DeviceTelemetry → ℕ → Type 0
IsMeasured none free = ⊥
IsMeasured (some reading) free =
    HasLocal reading.memory × (free ≡ min (local_free reading.memory) u64_max)

-- No reading, or one without memory on the device.
unfoldable pub IsUnmeasured : Option DeviceTelemetry → Type 0
IsUnmeasured none = Unit
IsUnmeasured (some reading) = HasNoLocal reading.memory

IsReading-later :
    (r : DeviceTelemetry) (rs : List DeviceTelemetry) (d : GpuDevice) (o : Option DeviceTelemetry)
    → r.uuid ≢ d.uuid
    → IsReading rs d o
    → IsReading (r ∷ rs) d o
unfolding IsReading
IsReading-later r rs d none differs h = (differs, h)
IsReading-later r rs d (some found) differs (before, after, place, others, same) =
    (r ∷ before, after, ap (◌∷◌ r) place, (differs, others), same)

pub reading_for-IsReading :
    (readings : List DeviceTelemetry) (d : GpuDevice)
    → IsReading readings d (reading_for readings d)
unfolding reading_for IsReading
reading_for-IsReading [] d = tt
reading_for-IsReading (r ∷ rs) d = by_uuid (r.uuid == d.uuid) refl (reading_for-IsReading rs d)
  where
    by_uuid :
        (b : Bool)
        → (r.uuid == d.uuid) ≡ b
        → IsReading rs d (reading_for rs d)
        → IsReading (r ∷ rs) d (if b then some r else reading_for rs d)
    by_uuid true same h = ([], rs, refl, tt, ground arith)
    by_uuid false differ h = IsReading-later r rs d (reading_for rs d) (λ e. ground arith) h

free_from-local_free :
    (ms : List MemoryModule) (acc : ℕ)
    → acc ≤ u64_max
    → free_from acc (modules true ms) ≡ min (acc + local_free ms) u64_max
unfolding free_from modules local_free
free_from-local_free [] acc small = omega arith
free_from-local_free (m ∷ ms) acc small =
    by_place m.on_device (free_from-local_free ms acc small)
      (free_from-local_free ms (sat_add64 acc m.free_bytes) (omega arith))
  where
    by_place :
        (b : Bool)
        → free_from acc (modules true ms) ≡ min (acc + local_free ms) u64_max
        → free_from (sat_add64 acc m.free_bytes) (modules true ms)
          ≡ min (sat_add64 acc m.free_bytes + local_free ms) u64_max
        → free_from acc (if b then m ∷ modules true ms else modules true ms)
          ≡ min (acc + (if b then m.free_bytes + local_free ms else local_free ms)) u64_max
    by_place true skip take = omega (arith, take)
    by_place false skip take = skip

modules-cases :
    (ms : List MemoryModule)
    → (HasLocal ms
        × ((m : MemoryModule) × (rest : List MemoryModule) × (modules true ms ≡ m ∷ rest)))
      ⊎ (HasNoLocal ms × (modules true ms ≡ []))
unfolding modules HasLocal HasNoLocal
modules-cases [] = inr (tt, refl)
modules-cases (m ∷ ms) = elim (Bool-cases m.on_device) [
  | inl here ↦ inl (([], m, ms, refl, here), (m, modules true ms, rw here refl))
  | inr away ↦ elim (modules-cases ms) [
    | inl ((before, l, after, place, here), (first, rest, chosen)) ↦
        inl ((m ∷ before, l, after, ap (◌∷◌ m) place, here), (first, rest, rw away chosen))
    | inr (all, nothing) ↦ inr ((away, all), rw away nothing)
  ]
]

pub measured-cases :
    (live : Option DeviceTelemetry)
    → ((free : ℕ) × IsMeasured live free × (measured live ≡ some free))
      ⊎ (IsUnmeasured live × (measured live ≡ none))
unfolding measured free_device_memory_bytes free_of IsMeasured IsUnmeasured
measured-cases none = inr (tt, refl)
measured-cases (some reading) = elim (modules-cases reading.memory) [
  | inl (there, (m, rest, chosen)) ↦ inl (
    min (local_free reading.memory) u64_max,
    (there, refl),
    rw (chosen, free_of) (ap some (ap (free_from 0) (sym chosen) ∙ from_zero)),
  )
  | inr (all, nothing) ↦ inr (all, rw (nothing, free_of) refl)
]
  where
    from_zero : free_from 0 (modules true reading.memory) ≡ min (local_free reading.memory) u64_max
    from_zero = omega (arith, free_from-local_free reading.memory 0 (omega arith))
