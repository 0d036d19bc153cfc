-- ===== src/Gguf/Header.antt =====
-- `read` of gguf.rs: the header of a file, with the checks that its claims fit in the file.
use mo_earc.Common.{
  ℕ, zero, suc, ◌*◌, Bool, false, not, ltb, leb, ◌==◌, none, some, List, [], ◌∷◌, sat_add64,
  sat_mul64, div_ceil, ◌/◌, ◌%◌, ◌&&◌, ◌||◌, lookup, insert, u32_max,
}
use mo_earc.Common.Results.{ok, err, ◌>>=◌, ◌>>◌, refuse}
use mo_earc.Gguf.Types.{
  Bytes, bytes_key, bytes_eq, Value, Parsed, TensorInfo, GgufHeader, as_u64, as_str, bad_magic,
  unsupported_version, implausible_count, too_many_dims, unknown_tensor_type,
  elements_not_block_aligned, bad_alignment, tensor_data_overruns_file, missing_key, wrong_key_type,
}
use mo_earc.Gguf.Quant.{QuantType, quant_lookup}
use mo_earc.Gguf.Reader.{Reader, open_reader, read_exact, word, read_string, value}

abbrev pub default_alignment : ℕ
default_alignment = 32

abbrev pub max_dims : ℕ
max_dims = 4

-- 8 + 4 + 1 and 8 + 4 + 4 + 8.
abbrev pub min_kv_bytes : ℕ
min_kv_bytes = 13

abbrev pub min_tensor_bytes : ℕ
min_tensor_bytes = 24

-- `dims.iter().fold(1, saturating_mul)`
unfoldable pub product_from : ℕ → List ℕ → ℕ
product_from acc [] = acc
product_from acc (d ∷ dims) = product_from (sat_mul64 acc d) dims

unfoldable pub n_elements : TensorInfo → ℕ
n_elements t = product_from 1 t.dims

-- `nbytes` of a tensor whose type is known.
unfoldable pub nbytes_of : TensorInfo → QuantType → Parsed ℕ
nbytes_of t q = do
  refuse (not ((n_elements t % q.block_size) == 0))
      (elements_not_block_aligned t.name (n_elements t) q.block_size)
  ok (sat_mul64 (n_elements t / q.block_size) q.type_size)

unfoldable pub nbytes : TensorInfo → Parsed ℕ
nbytes t = elim (quant_lookup t.type_id) [
  | none ↦ err (unknown_tensor_type t.name t.type_id)
  | some q ↦ nbytes_of t q
]

unfoldable pub pad_to : ℕ → ℕ → ℕ
pad_to n align = sat_mul64 (div_ceil n align) align

unfoldable pub u64_key : GgufHeader → Bytes → Parsed ℕ
u64_key h key = elim (lookup key h.metadata) [
  | none ↦ err (missing_key key)
  | some v ↦ elim (as_u64 v) [ none ↦ err (wrong_key_type key) | some n ↦ ok n ]
]

unfoldable pub u32_key : GgufHeader → Bytes → Parsed ℕ
u32_key h key = do v ← u64_key h key; refuse (ltb u32_max v) (wrong_key_type key); ok v

unfoldable pub str_key : GgufHeader → Bytes → Parsed Bytes
str_key h key = elim (lookup key h.metadata) [
  | none ↦ err (missing_key key)
  | some v ↦ elim (as_str v) [ none ↦ err (wrong_key_type key) | some s ↦ ok s ]
]

-- `u64::is_power_of_two`: whether `n` is among `count` doublings of `power`.
unfoldable pub doubling : ℕ → ℕ → ℕ → Bool
doubling zero power n = false
doubling (suc count) power n = (power == n) || doubling count (2 * power) n

unfoldable pub is_power_of_two : ℕ → Bool
is_power_of_two n = doubling 64 1 n

-- The bytes of "GGUF" and of "general.alignment".
abbrev pub magic : Bytes
magic = 71 ∷ 71 ∷ 85 ∷ 70 ∷ []

abbrev pub alignment_key : Bytes
alignment_key =
    103 ∷ 101 ∷ 110 ∷ 101 ∷ 114 ∷ 97 ∷ 108 ∷ 46 ∷ 97 ∷ 108 ∷ 105 ∷ 103 ∷ 110 ∷ 109 ∷ 101 ∷ 110 ∷ 116
    ∷ []

unfoldable pub alignment_of : List (Bytes × Value) → Parsed ℕ
alignment_of metadata = elim (lookup alignment_key metadata) [
  | none ↦ ok default_alignment
  | some v ↦ elim (as_u64 v) [ none ↦ err (wrong_key_type alignment_key) | some n ↦ ok n ]
]

-- `for _ in 0..n_dims { dims.push(r.u64()?) }`
unfoldable pub read_dims : ℕ → Reader → Parsed (Reader × List ℕ)
read_dims zero r = ok (r, [])
read_dims (suc n) r = do (r', d) ← word 8 r; (r'', dims) ← read_dims n r'; ok (r'', d ∷ dims)

-- The check that the file holds what the index claims.
unfoldable pub check_tensor : ℕ → ℕ → ℕ → TensorInfo → Parsed (Unit {0})
check_tensor data_offset alignment file_size t = do
  bytes ← nbytes t
  let end = sat_add64 (sat_add64 data_offset t.offset) (pad_to bytes alignment)
  refuse (ltb file_size end) (tensor_data_overruns_file t.name end file_size)

unfoldable pub check_tensors : ℕ → ℕ → ℕ → List TensorInfo → Parsed (Unit {0})
check_tensors data_offset alignment file_size [] = ok tt
check_tensors data_offset alignment file_size (t ∷ ts) =
    check_tensor data_offset alignment file_size t
    >> check_tensors data_offset alignment file_size ts

-- From the index on: where the data starts, and whether the file holds it.
unfoldable pub finish_header :
    ℕ → ℕ → List (Bytes × Value) → Reader → List TensorInfo → Parsed GgufHeader
finish_header version alignment metadata r tensors = do
  let data_offset = pad_to r.pos alignment
  check_tensors data_offset alignment r.file_size tensors
  ok (record {
    version = version;
    alignment = alignment;
    data_offset = data_offset;
    file_size = r.file_size;
    metadata = metadata;
    tensors = tensors;
  })

-- The magic, the version, and the two counts.
unfoldable pub read_counts : Reader → Parsed (Reader × ℕ × ℕ × ℕ)
read_counts r = do
  (r1, found) ← read_exact r 4
  refuse (not (bytes_eq found magic)) (bad_magic found)
  (r2, version) ← word 4 r1
  refuse (not (leb 2 version && leb version 3)) (unsupported_version version)
  (r3, tensor_count) ← word 8 r2
  (r4, kv_count) ← word 8 r3
  refuse (ltb r.file_size (sat_mul64 kv_count min_kv_bytes))
      (implausible_count kv_count r.file_size)
  refuse (ltb r.file_size (sat_mul64 tensor_count min_tensor_bytes))
      (implausible_count tensor_count r.file_size)
  ok (r4, version, tensor_count, kv_count)

module _ (lossy : Bytes → Bytes) where
  unfoldable pub read_metadata :
      ℕ → Reader → List (Bytes × Value) → Parsed (Reader × List (Bytes × Value))
  read_metadata zero r metadata = ok (r, metadata)
  read_metadata (suc count) r metadata = do
    (r1, key) ← read_string lossy r
    (r2, id) ← word 4 r1
    (r3, v) ← value lossy r2 id key
    read_metadata count r3 (insert key v metadata)

  unfoldable pub read_tensor : Reader → Parsed (Reader × TensorInfo)
  read_tensor r = do
    (r1, name) ← read_string lossy r
    (r2, n_dims) ← word 4 r1
    refuse (ltb max_dims n_dims) (too_many_dims name n_dims)
    (r3, dims) ← read_dims n_dims r2
    (r4, id) ← word 4 r3
    (r5, offset) ← word 8 r4
    ok (r5, record { name = name; dims = dims; type_id = id; offset = offset })

  unfoldable pub read_tensors : ℕ → Reader → Parsed (Reader × List TensorInfo)
  read_tensors zero r = ok (r, [])
  read_tensors (suc count) r = do
    (r', t) ← read_tensor r
    (r'', ts) ← read_tensors count r'
    ok (r'', t ∷ ts)

  -- From the magic to the check of the alignment.
  unfoldable pub read_front : Bytes → Parsed (Reader × ℕ × ℕ × ℕ × List (Bytes × Value))
  read_front bytes = do
    (r4, version, tensor_count, kv_count) ← read_counts (open_reader bytes)
    (r5, metadata) ← read_metadata kv_count r4 []
    alignment ← alignment_of metadata
    refuse ((alignment == 0) || not (is_power_of_two alignment)) (bad_alignment alignment)
    ok (r5, version, tensor_count, alignment, metadata)

  -- `read`, of a file that holds `bytes`.
  unfoldable pub read_header : Bytes → Parsed GgufHeader
  read_header bytes = do
    (r5, version, tensor_count, alignment, metadata) ← read_front bytes
    (r6, tensors) ← read_tensors tensor_count r5
    finish_header version alignment metadata r6 tensors
