-- ===== src/Residency/Trace.antt =====
-- What the simulator asks of a trace.
use mo_earc.Common.{ℕ, zero, suc, ◌+◌, max, ltb, leb, if◌then◌else◌, List, [], ◌∷◌, ◌++◌, length}
use mo_earc.Cache.Types.{ExpertRef}
use mo_earc.Cache.Pool.{distinct_of}
use mo_earc.Residency.Types.{Trace, Policy}

-- `steps.iter().flatten()`.
unfoldable pub flatten : List (List ExpertRef) → List ExpertRef
flatten [] = []
flatten (s ∷ ss) = s ++ flatten ss

unfoldable pub demands_of : List (List ExpertRef) → ℕ
demands_of [] = 0
demands_of (s ∷ ss) = length s + demands_of ss

unfoldable pub demands : Trace → ℕ
demands t = demands_of t.steps

unfoldable pub working_set : Trace → ℕ
working_set t = length (distinct_of (flatten t.steps))

unfoldable pub peak_of : List (List ExpertRef) → ℕ
peak_of [] = 0
peak_of (s ∷ ss) = max (length s) (peak_of ss)

unfoldable pub peak_step_demand : Trace → ℕ
peak_step_demand t = peak_of t.steps

-- `filter(|e| e.layer < layer)`.
unfoldable pub layers_below : ℕ → List ExpertRef → List ExpertRef
layers_below layer [] = []
layers_below layer (e ∷ es) =
    let rest = layers_below layer es in if ltb e.layer layer then e ∷ rest else rest

unfoldable pub experts_in_layers_below : Trace → ℕ → ℕ
experts_in_layers_below t layer = length (distinct_of (layers_below layer (flatten t.steps)))

unfoldable pub max_layer : List ExpertRef → ℕ
max_layer [] = 0
max_layer (e ∷ es) = max e.layer (max_layer es)

-- The loop of `widest_static_split`, for the next `rounds` layers above `best`.
unfoldable pub widest_from : Trace → ℕ → ℕ → ℕ → ℕ
widest_from t capacity best zero = best
widest_from t capacity best (suc rounds) =
    let rest = widest_from t capacity (best + 1) rounds in
    if leb (experts_in_layers_below t (best + 1)) capacity then rest else best

-- `max_layer.saturating_add(1)` is of `u16`.
unfoldable pub widest_static_split : Trace → ℕ → Policy
widest_static_split t capacity =
    let top = max_layer (flatten t.steps) in
    Policy.static_split (widest_from t capacity 0 (if ltb top 65535 then top + 1 else top))
