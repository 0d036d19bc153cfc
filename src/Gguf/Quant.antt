-- ===== src/Gguf/Quant.antt =====
-- quant.rs: the ggml types, how many elements a block of each holds, and in how many bytes.
use Prim.Native.String.{String}
use mo_earc.Common.{
  ℕ, ◌+◌, ◌*◌, ◌/◌, Bool, ltb, ◌==◌, Option, none, some, List, [], ◌∷◌, if◌then◌else◌,
}

pub record QuantType : Type 0 where
  pub id : ℕ
  pub name : String
  pub block_size : ℕ
  pub type_size : ℕ

unfoldable pub is_quantised : QuantType → Bool
is_quantised t = ltb 1 t.block_size

abbrev pub qk_k : ℕ
qk_k = 256

abbrev row : ℕ → String → ℕ → ℕ → QuantType
row id name block_size type_size = record {
  id = id;
  name = name;
  block_size = block_size;
  type_size = type_size;
}

unfoldable pub types : List QuantType
types =
    row 0 "f32" 1 4
    ∷ row 1 "f16" 1 2
    ∷ row 2 "q4_0" 32 (2 + 16)
    ∷ row 3 "q4_1" 32 (2 + 2 + 16)
    ∷ row 6 "q5_0" 32 (2 + 4 + 16)
    ∷ row 7 "q5_1" 32 (2 + 2 + 4 + 16)
    ∷ row 8 "q8_0" 32 (2 + 32)
    ∷ row 9 "q8_1" 32 (4 + 4 + 32)
    ∷ row 10 "q2_K" qk_k (2 + 2 + qk_k / 16 + qk_k / 4)
    ∷ row 11 "q3_K" qk_k (2 + qk_k / 4 + qk_k / 8 + 12)
    ∷ row 12 "q4_K" qk_k (2 + 2 + qk_k / 2 + 12)
    ∷ row 13 "q5_K" qk_k (2 + 2 + qk_k / 2 + qk_k / 8 + 12)
    ∷ row 14 "q6_K" qk_k (2 + qk_k / 2 + qk_k / 4 + qk_k / 16)
    ∷ row 15 "q8_K" qk_k (4 + qk_k + qk_k / 8)
    ∷ row 16 "iq2_xxs" qk_k (2 + qk_k / 4)
    ∷ row 17 "iq2_xs" qk_k (2 + qk_k / 4 + qk_k / 32)
    ∷ row 18 "iq3_xxs" qk_k (2 + qk_k / 4 + qk_k / 8)
    ∷ row 19 "iq1_s" qk_k (2 + qk_k / 8 + qk_k / 16)
    ∷ row 20 "iq4_nl" 32 (2 + 16)
    ∷ row 21 "iq3_s" qk_k (2 + qk_k / 4 + qk_k / 8 + qk_k / 32 + 4)
    ∷ row 22 "iq2_s" qk_k (2 + qk_k / 4 + qk_k / 16)
    ∷ row 23 "iq4_xs" qk_k (2 + 2 + qk_k / 2 + qk_k / 64)
    ∷ row 24 "i8" 1 1
    ∷ row 25 "i16" 1 2
    ∷ row 26 "i32" 1 4
    ∷ row 27 "i64" 1 8
    ∷ row 28 "f64" 1 8
    ∷ row 29 "iq1_m" qk_k (qk_k / 8 + qk_k / 16 + qk_k / 32)
    ∷ row 30 "bf16" 1 2
    ∷ row 34 "tq1_0" qk_k (2 + 4 * 13)
    ∷ row 35 "tq2_0" qk_k (2 + 64)
    ∷ row 39 "mxfp4" 32 (1 + 16)
    ∷ row 40 "nvfp4" 64 (4 + 32)
    ∷ row 41 "q1_0" 128 (2 + 16)
    ∷ row 42 "q2_0" 64 (2 + 16)
    ∷ []

-- `iter().copied().find(|t| t.id == id)`
unfoldable pub find_id : ℕ → List QuantType → Option QuantType
find_id id [] = none
find_id id (t ∷ ts) = if t.id == id then some t else find_id id ts

unfoldable pub quant_lookup : ℕ → Option QuantType
quant_lookup id = find_id id types
