-- ===== src/Gguf/Types.antt =====
-- The data of gguf.rs. A `String` is the list of its bytes, and so is a file; a float is its bits.
use mo_earc.Common.{
  ℕ, ◌-◌, ◌*◌, ◌≡◌, ◌↔◌, arith, Bool, true, false, ◌&&◌, ◌==◌, ltb, if◌then◌else◌, Option, none,
  some, List, [], ◌∷◌, Eq,
}
use mo_earc.Common.Results.{Result}

abbrev pub Bytes : Type 0
Bytes = List ℕ

unfoldable pub bytes_eq : Bytes → Bytes → Bool
bytes_eq [] [] = true
bytes_eq [] (b ∷ bs) = false
bytes_eq (a ∷ xs) [] = false
bytes_eq (a ∷ xs) (b ∷ bs) = (a == b) && bytes_eq xs bs

pub bytes_eq_iff : (xs bs : Bytes) → (bytes_eq xs bs ≡ true) ↔ (xs ≡ bs)
unfolding bytes_eq
bytes_eq_iff [] [] = ground arith
bytes_eq_iff [] (b ∷ bs) = ground arith
bytes_eq_iff (a ∷ xs) [] = ground arith
bytes_eq_iff (a ∷ xs) (b ∷ bs) = ground (arith, bytes_eq_iff xs bs)

instance abbrev pub bytes_key : Eq Bytes
bytes_key = record { beq = bytes_eq; beq_iff = bytes_eq_iff }

-- A signed machine integer: `n` or `-1 - n`.
pub data ℤ : Type 0 where
  pos negsuc : ℕ → ℤ

-- `as i8` and so on: the two's complement of a word below `2 * half`.
unfoldable pub signed : ℕ → ℕ → ℤ
signed half n = if ltb n half then ℤ.pos n else ℤ.negsuc (2 * half - 1 - n)

mutual
  pub data Value : Type 0 where
    u8 u16 u32 u64 f32 f64 : ℕ → Value
    i8 i16 i32 i64 : ℤ → Value
    bool : Bool → Value
    string : Bytes → Value
    array : Values → Value
    skipped_array : ℕ → ℕ → Value

  pub data Values : Type 0 where
    last : Values
    next : Value → Values → Values

-- `u64::try_from` on a signed integer.
unfoldable pub non_negative : ℤ → Option ℕ
non_negative (ℤ.pos n) = some n
non_negative (ℤ.negsuc n) = none

unfoldable pub as_u64 : Value → Option ℕ
as_u64 (Value.u8 n) = some n
as_u64 (Value.u16 n) = some n
as_u64 (Value.u32 n) = some n
as_u64 (Value.u64 n) = some n
as_u64 (Value.i8 z) = non_negative z
as_u64 (Value.i16 z) = non_negative z
as_u64 (Value.i32 z) = non_negative z
as_u64 (Value.i64 z) = non_negative z
as_u64 (Value.bool b) = some (if b then 1 else 0)
as_u64 other = none

unfoldable pub as_str : Value → Option Bytes
as_str (Value.string s) = some s
as_str other = none

unfoldable pub as_array : Value → Option Values
as_array (Value.array vs) = some vs
as_array other = none

-- The errors of the header and of the tensors, of lib.rs, without the constant texts that some of them carry. `io` is an
-- error of the file system.
pub data ModelError : Type 0 where
  io : ModelError
  bad_magic : Bytes → ModelError
  unsupported_version : ℕ → ModelError
  truncated : ℕ → ℕ → ℕ → ModelError
  implausible_count : ℕ → ℕ → ModelError
  bad_value_type : Bytes → ℕ → ModelError
  nested_array : Bytes → ModelError
  too_many_dims : Bytes → ℕ → ModelError
  unknown_tensor_type : Bytes → ℕ → ModelError
  elements_not_block_aligned : Bytes → ℕ → ℕ → ModelError
  bad_alignment : ℕ → ModelError
  tensor_data_overruns_file : Bytes → ℕ → ℕ → ModelError
  missing_key : Bytes → ModelError
  wrong_key_type : Bytes → ModelError
  tensor_not_found : Bytes → ModelError
  not_sliceable : Bytes → ℕ → ModelError
  slice_out_of_range : Bytes → ℕ → ℕ → ModelError
  slice_stride_mismatch : Bytes → ℕ → ℕ → ℕ → ModelError

abbrev pub Parsed {ℓ} : Type ℓ → Type ℓ
Parsed A = Result ModelError A

pub record TensorInfo : Type 0 where
  pub name : Bytes
  pub dims : List ℕ
  pub type_id : ℕ
  pub offset : ℕ

pub record GgufHeader : Type 0 where
  pub version : ℕ
  pub alignment : ℕ
  pub data_offset : ℕ
  pub file_size : ℕ
  pub metadata : List (Bytes × Value)
  pub tensors : List TensorInfo
