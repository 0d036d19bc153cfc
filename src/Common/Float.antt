-- ===== src/Common/Float.antt =====
-- `f64`, as far as the two reserve computations use it: the type and its operations are
-- parameters, since the hardware's rounding is not part of the sources.
use Prim.Native.Nat.{ℕ, ◌+◌, ◌*◌, ◌/◌, ◌≤◌, min}
use native.Mathlib.Omega.{arith}

-- `as f64` on a `u64`, `clamp(0.0, 1.0)`, `*`, and `.ceil() as u64`.
pub record Float : Type 1 where
  pub F64 : Type 0
  pub of_u64 : ℕ → F64
  pub clamp_unit : F64 → F64
  pub mul : F64 → F64 → F64
  pub ceil_u64 : F64 → ℕ

-- The integers that `f64` holds exactly: up to 2^53.
abbrev pub exact_max : ℕ
exact_max = 0x20_0000_0000_0000

module _ (fl : Float) where
  open fl use {F64, of_u64, clamp_unit, mul, ceil_u64}

  -- `(n as f64 * f.clamp(0.0, 1.0)).ceil() as u64`
  unfoldable pub ceil_share : F64 → ℕ → ℕ
  ceil_share f n = ceil_u64 (mul (of_u64 n) (clamp_unit f))

  -- IEEE 754: on the exact integers a share of `n`, rounded up, is not above `n`. (The cast of a
  -- NaN is 0.)
  abbrev pub ShareBounded : Type 0
  ShareBounded = (f : F64) (n : ℕ) → n ≤ exact_max → ceil_share f n ≤ n

-- Hundredths as a stand-in for `f64`, for tests and for showing that the bound can hold.
abbrev pub hundredths : Float
hundredths = record {
  F64 = ℕ;
  of_u64 = λ n. n * 100;
  clamp_unit = λ f. min f 100;
  mul = λ a b. a * b / 100;
  ceil_u64 = λ a. (a + 99) / 100;
}

share_arith : (n m : ℕ) → m ≤ 100 → (n * 100 * m / 100 + 99) / 100 ≤ n
share_arith n m h = grind arith

pub hundredths-ShareBounded : ShareBounded hundredths
unfolding ceil_share
hundredths-ShareBounded f n h = share_arith n (min f 100) (omega arith)
