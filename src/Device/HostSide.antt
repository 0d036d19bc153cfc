-- ===== src/Device/HostSide.antt =====
-- The memory of the host that a reading shows, said without the loop of the code.
use mo_earc.Common.{
  ℕ, ◌+◌, ◌≤◌, ◌≡◌, ◌⊎◌, inl, inr, refl, ap, sym, false≢true, ◌∙◌, arith, min, u64_max, sat_add64,
  Bool, true, false, not, Bool-cases, if◌then◌else◌, Option, none, some, Option-cases, List, [],
  ◌∷◌, ◌++◌, All,
}
use mo_earc.Device.Types.{MemoryModule, DeviceTelemetry}
use mo_earc.Device.Fitness.{modules, physical_from, host_memory_bytes}

-- The capacities that are known of the modules of the host.
unfoldable pub known_host : List MemoryModule → ℕ
known_host [] = 0
known_host (m ∷ ms) =
    let rest = known_host ms in
    if m.on_device then rest else elim m.physical_bytes [ none ↦ rest | some p ↦ p + rest ]

-- A module of the host whose capacity is known.
unfoldable pub HasKnown : List MemoryModule → Type 0
HasKnown ms =
    (before : List MemoryModule) × (m : MemoryModule) × (p : ℕ) × (after : List MemoryModule) × (ms
      ≡ before ++ (m ∷ after))
    × (m.on_device ≡ false)
    × (m.physical_bytes ≡ some p)

-- The sum of the known capacities, which stops at 2^64 - 1, or none where none is known.
unfoldable pub IsHostMemory : List MemoryModule → Option ℕ → Type 0
IsHostMemory ms none = All (λ m. (m.on_device ≡ true) ⊎ (m.physical_bytes ≡ none)) ms
IsHostMemory ms (some n) = HasKnown ms × (n ≡ min (known_host ms) u64_max)

physical_from-known :
    (ms : List MemoryModule) (t : ℕ)
    → t ≤ u64_max
    → physical_from (some t) (modules false ms) ≡ some (min (t + known_host ms) u64_max)
unfolding physical_from modules known_host
physical_from-known [] t small = ap some (omega arith)
physical_from-known (m ∷ ms) t small =
    by_place m.on_device m.physical_bytes (physical_from-known ms t small)
      (λ p. physical_from-known ms (sat_add64 t p) (omega arith))
  where
    by_place :
        (b : Bool) (o : Option ℕ)
        → physical_from (some t) (modules false ms) ≡ some (min (t + known_host ms) u64_max)
        → ((p : ℕ)
            → physical_from (some (sat_add64 t p)) (modules false ms)
              ≡ some (min (sat_add64 t p + known_host ms) u64_max))
        → physical_from (some t) (
            if not b
            then record m { on_device = b; physical_bytes = o } ∷ modules false ms
            else modules false ms)
          ≡ some (
              min
                (t
                  + (if b then known_host ms else elim o as (λ x. ℕ) [
                    | none ↦ known_host ms
                    | some p ↦ p + known_host ms
                  ]))
                u64_max)
    by_place true o skip take = skip
    by_place false none skip take = skip
    by_place false (some p) skip take = take p ∙ ap some (omega arith)

modules-away :
    (m : MemoryModule) (ms : List MemoryModule)
    → m.on_device ≡ true
    → modules false (m ∷ ms) ≡ modules false ms
unfolding modules
modules-away m ms away = rw away refl

modules-here :
    (m : MemoryModule) (ms : List MemoryModule)
    → m.on_device ≡ false
    → modules false (m ∷ ms) ≡ m ∷ modules false ms
unfolding modules
modules-here m ms here = by_place m.on_device here
  where
    by_place :
        (b : Bool)
        → b ≡ false
        → (if not b then m ∷ modules false ms else modules false ms) ≡ m ∷ modules false ms
    by_place true h = absurd (false≢true (sym h))
    by_place false h = refl

-- A module that adds nothing.
adds_nothing :
    (m : MemoryModule) (ms : List MemoryModule)
    → (m.on_device ≡ true) ⊎ (m.physical_bytes ≡ none)
    → known_host (m ∷ ms) ≡ known_host ms
unfolding known_host
adds_nothing m ms (inl away) = rw away refl
adds_nothing m ms (inr unknown) = by_place m.on_device m.physical_bytes unknown
  where
    by_place :
        (b : Bool) (o : Option ℕ)
        → o ≡ none
        → (if b
            then known_host ms
            else elim o as (λ x. ℕ) [ none ↦ known_host ms | some p ↦ p + known_host ms ])
          ≡ known_host ms
    by_place true o h = refl
    by_place false none h = refl
    by_place false (some p) h = cc

adds_known :
    (m : MemoryModule) (ms : List MemoryModule) (p : ℕ)
    → m.on_device ≡ false
    → m.physical_bytes ≡ some p
    → known_host (m ∷ ms) ≡ p + known_host ms
unfolding known_host
adds_known m ms p here known = rw (here, known) refl

IsHostMemory-later :
    (m : MemoryModule) (ms : List MemoryModule) (o : Option ℕ)
    → (m.on_device ≡ true) ⊎ (m.physical_bytes ≡ none)
    → IsHostMemory ms o
    → IsHostMemory (m ∷ ms) o
unfolding IsHostMemory HasKnown
IsHostMemory-later m ms none nothing all = (nothing, all)
IsHostMemory-later m ms (some n) nothing ((before, k, p, after, place, here, known), sum) = (
  (m ∷ before, k, p, after, ap (◌∷◌ m) place, here, known),
  sum ∙ ap (λ x. min x u64_max) (sym (adds_nothing m ms nothing)),
)

IsHostMemory-known :
    (m : MemoryModule) (ms : List MemoryModule) (p : ℕ)
    → m.on_device ≡ false
    → m.physical_bytes ≡ some p
    → IsHostMemory (m ∷ ms) (some (min (sat_add64 0 p + known_host ms) u64_max))
unfolding IsHostMemory HasKnown
IsHostMemory-known m ms p here known =
    (([], m, p, ms, refl, here, known), omega (arith, adds_known m ms p here known))

physical_from-none :
    (m : MemoryModule) (rest : List MemoryModule)
    → m.physical_bytes ≡ none
    → physical_from none (m ∷ rest) ≡ physical_from none rest
unfolding physical_from
physical_from-none m rest unknown = rw unknown refl

physical_from-some :
    (m : MemoryModule) (rest : List MemoryModule) (p : ℕ)
    → m.physical_bytes ≡ some p
    → physical_from none (m ∷ rest) ≡ physical_from (some (sat_add64 0 p)) rest
unfolding physical_from
physical_from-some m rest p known = rw known refl

physical_from-IsHostMemory :
    (ms : List MemoryModule) → IsHostMemory ms (physical_from none (modules false ms))
physical_from-IsHostMemory [] = unfold modules physical_from IsHostMemory in tt
physical_from-IsHostMemory (m ∷ ms) =
    let later = physical_from-IsHostMemory ms in
    elim (Bool-cases m.on_device) [
      | inl away ↦ rw (modules-away m ms away) (IsHostMemory-later m ms _ (inl away) later)
      | inr here ↦ elim (Option-cases m.physical_bytes) [
        | inl unknown ↦ rw (modules-here m ms here) (
            rw (physical_from-none m (modules false ms) unknown)
              (IsHostMemory-later m ms _ (inr unknown) later))
        | inr (p, known) ↦ rw (modules-here m ms here) (
            rw
              (
                physical_from-some m (modules false ms) p known,
                physical_from-known ms (sat_add64 0 p) (omega arith),
              )
              (IsHostMemory-known m ms p here known))
      ]
    ]

pub host_memory_bytes-IsHostMemory :
    (t : DeviceTelemetry) → IsHostMemory t.memory (host_memory_bytes t)
unfolding host_memory_bytes
host_memory_bytes-IsHostMemory t = physical_from-IsHostMemory t.memory
