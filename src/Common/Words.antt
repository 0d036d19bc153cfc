-- ===== src/Common/Words.antt =====
-- The arithmetic of `u32` and `u64` as the sources use it: wrapping operators (a release build),
-- saturating methods, `div_ceil` and `clamp`.
use Prim.Native.Nat.{ℕ, ◌+◌, ◌-◌, ◌*◌, ◌/◌, ◌%◌, ◌≤◌, ◌<◌, min}
use mathlib.Core.Path.{◌≡◌, refl}
use mathlib.Core.Logic.{◌≢◌}
use native.Mathlib.Decide.{dec_lt}
use native.Mathlib.Nat.{mul-mod_left}
use native.Mathlib.Omega.{arith}
use mo_earc.Common.Tests.{ltb, ◌==◌, if◌then◌else◌}

-- `u32::MAX` and `u64::MAX`.
abbrev pub u32_max : ℕ
u32_max = 0xffff_ffff

abbrev pub u64_max : ℕ
u64_max = 0xffff_ffff_ffff_ffff

-- `a * b`, `a - b` and `a + b` on machine words.
abbrev pub mul32 : ℕ → ℕ → ℕ
mul32 a b = (a * b) % (u32_max + 1)

abbrev pub mul64 : ℕ → ℕ → ℕ
mul64 a b = (a * b) % (u64_max + 1)

abbrev pub sub64 : ℕ → ℕ → ℕ
sub64 a b = (a + (u64_max + 1) - b) % (u64_max + 1)

abbrev pub sub32 : ℕ → ℕ → ℕ
sub32 a b = (a + (u32_max + 1) - b) % (u32_max + 1)

abbrev pub add64 : ℕ → ℕ → ℕ
add64 a b = (a + b) % (u64_max + 1)

abbrev pub add32 : ℕ → ℕ → ℕ
add32 a b = (a + b) % (u32_max + 1)

-- `saturating_mul` and `saturating_add`.
abbrev pub sat_mul32 : ℕ → ℕ → ℕ
sat_mul32 a b = min (a * b) u32_max

abbrev pub sat_mul64 : ℕ → ℕ → ℕ
sat_mul64 a b = min (a * b) u64_max

abbrev pub sat_add64 : ℕ → ℕ → ℕ
sat_add64 a b = min (a + b) u64_max

-- `x.min(u32::MAX as u64) as u32`.
abbrev pub to_u32 : ℕ → ℕ
to_u32 x = min x u32_max

-- `x.clamp(lo, hi)`, for `lo <= hi`.
abbrev pub clamp : ℕ → ℕ → ℕ → ℕ
clamp lo hi x = if ltb x lo then lo else if ltb hi x then hi else x

-- `n.div_ceil(d)`, for `d != 0`.
unfoldable pub div_ceil : ℕ → ℕ → ℕ
div_ceil n d = if (n % d) == 0 then n / d else n / d + 1

-- The least multiple of `d` that is not below `n`.
pub div_ceil_bounds : (n d : ℕ) → d ≢ 0 → (n ≤ div_ceil n d * d) × (div_ceil n d * d < n + d)
unfolding div_ceil
div_ceil_bounds n d h = grind arith

le_of_mul-lt : (a k d : ℕ) → a * d < k * d + d → a ≤ k
le_of_mul-lt a k d h = grind arith

-- `div_ceil n d` is the least number of groups of `d` that hold `n`.
pub div_ceil-le_of_fits : (n d k : ℕ) → d ≢ 0 → n ≤ k * d → div_ceil n d ≤ k
div_ceil-le_of_fits n d k h fits =
    le_of_mul-lt (div_ceil n d) k d (omega (arith, (div_ceil_bounds n d h).1))

pub div-mul-le : (n d : ℕ) → n / d * d ≤ n
div-mul-le n d = grind arith

-- A quotient is the largest number of groups that fit.
pub le-div_of_fits : (n d k : ℕ) → d ≢ 0 → k * d ≤ n → k ≤ n / d
le-div_of_fits n d k h fits = grind arith

pub fits_of_le-div : (n d k : ℕ) → k ≤ n / d → k * d ≤ n
fits_of_le-div n d k h = grind arith

pub clamp_bounds : (lo hi x : ℕ) → lo ≤ hi → (lo ≤ clamp lo hi x) × (clamp lo hi x ≤ hi)
clamp_bounds lo hi x h = ground arith

-- A difference that does not go below zero does not wrap.
pub sub64_exact : (a b : ℕ) → b ≤ a → a ≤ u64_max → sub64 a b ≡ a - b
sub64_exact a b h k = omega arith

pub mul64_exact : (a b : ℕ) → a * b ≤ u64_max → mul64 a b ≡ a * b
mul64_exact a b h = omega arith

-- Products are monotone.
pub mul-le_left : (x y k : ℕ) → x ≤ y → x * k ≤ y * k
mul-le_left x y k h = grind arith

pub mul-le_right : (k x y : ℕ) → x ≤ y → k * x ≤ k * y
mul-le_right k x y h = grind arith

-- Positions: a number below `n` groups of `d` lies in one of them, and `n` whole groups end at `n`.
pub div-lt_of_lt : (t d n : ℕ) → t < n * d → t / d < n
div-lt_of_lt t d n h = elim (dec_lt (t / d) n) [
  | yes below ↦ below
  | no above ↦ absurd (omega (arith, fits_of_le-div t d n (omega arith)))
]

pub div-eq_of_groups : (t d n : ℕ) → 0 < d → t ≡ n * d → t / d ≡ n
div-eq_of_groups t d n pos e =
    let low = le-div_of_fits t d n (omega arith) (omega arith) in
    let high = div-lt_of_lt t d (n + 1) (omega arith) in omega arith

pub mod-eq-zero_of_groups : (t d n : ℕ) → t ≡ n * d → t % d ≡ 0
mod-eq-zero_of_groups t d n e = rw (e, mul-mod_left) refl
