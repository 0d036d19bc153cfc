-- ===== src/Tensors/Views.antt =====
-- The views of tensors.rs. On a 64-bit target the casts between `u64` and `usize` keep every value.
use mo_earc.Common.{
  ℕ, ◌-◌, ◌/◌, ◌%◌, Bool, not, ◌&&◌, ltb, leb, ◌==◌, if◌then◌else◌, Option, none, some, List, [],
  ◌∷◌, length, take, drop, sat_add64, sat_mul64, mul64, add64, lookup, contains, keys,
}
use mo_earc.Common.Results.{ok, err, ◌>>=◌, ◌>>◌, refuse}
use mo_earc.Gguf.Types.{
  Bytes, bytes_key, Parsed, TensorInfo, GgufHeader, truncated, unknown_tensor_type,
  elements_not_block_aligned, tensor_data_overruns_file, tensor_not_found, not_sliceable,
  slice_out_of_range, slice_stride_mismatch,
}
use mo_earc.Gguf.Quant.{QuantType, quant_lookup}
use mo_earc.Gguf.Header.{product_from, nbytes}

pub record TensorView : Type 0 where
  pub name : Bytes
  pub dims : List ℕ
  pub quant : QuantType
  pub bytes : Bytes
  pub file_offset : ℕ

unfoldable pub view_elements : TensorView → ℕ
view_elements v = product_from 1 v.dims

-- `bytes.get(start..end)`
unfoldable pub sub_bytes : ℕ → ℕ → Bytes → Option Bytes
sub_bytes start end bytes =
    if leb start end && leb end (length bytes)
    then some (take (end - start) (drop start bytes))
    else none

-- `split_last`: the last dimension and those before it.
unfoldable pub split_last : List ℕ → Option (ℕ × List ℕ)
split_last [] = none
split_last (d ∷ dims) = elim (split_last dims) [
  | none ↦ some (d, [])
  | some (final, front) ↦ some (final, d ∷ front)
]

-- The bytes of one slice of `inner` dimensions, once its elements are whole blocks.
unfoldable pub slice_bytes : QuantType → List ℕ → ℕ
slice_bytes q inner = mul64 (product_from 1 inner / q.block_size) q.type_size

-- The checks of `slice_last_dim` between the dimensions and the slice.
unfoldable pub check_slice : TensorView → ℕ → ℕ → List ℕ → Parsed (Unit {0})
check_slice v index count inner = do
  refuse (length inner == 0) (not_sliceable v.name 1)
  refuse (leb count index) (slice_out_of_range v.name index count)
  refuse (not ((product_from 1 inner % v.quant.block_size) == 0))
      (elements_not_block_aligned v.name (product_from 1 inner) v.quant.block_size)
  refuse (not (sat_mul64 (slice_bytes v.quant inner) count == length v.bytes))
      (slice_stride_mismatch v.name (slice_bytes v.quant inner) count (length v.bytes))

-- `Ok(TensorView { … })`; `none` is the panic of `self.data[s..s + n]`.
unfoldable pub cut_slice : TensorView → ℕ → List ℕ → Option TensorView
cut_slice v index inner =
    let n = slice_bytes v.quant inner in
    let start = mul64 n index in
    elim (sub_bytes start (add64 start n) v.bytes) [
      | none ↦ none
      | some got ↦ some (record {
        name = v.name;
        dims = inner;
        quant = v.quant;
        bytes = got;
        file_offset = add64 v.file_offset start;
      })
    ]

unfoldable pub slice_last_dim : TensorView → ℕ → Option (Parsed TensorView)
slice_last_dim v index = elim (split_last v.dims) [
  | none ↦ some (err (not_sliceable v.name 0))
  | some (count, inner) ↦ elim (check_slice v index count inner) [
    | err e ↦ some (err e)
    | ok u ↦ elim (cut_slice v index inner) [ none ↦ none | some w ↦ some (ok w) ]
  ]
]

pub record MappedModel : Type 0 where
  pub header : GgufHeader
  pub map : Bytes
  pub by_name : List (Bytes × TensorInfo)

-- `by_name.entry(name).or_insert(i)` over the index; a name stands for the entry that it finds.
unfoldable pub index_names : List (Bytes × TensorInfo) → List TensorInfo → List (Bytes × TensorInfo)
index_names names [] = names
index_names names (t ∷ ts) =
    index_names (if contains (keys names) t.name then names else (t.name, t) ∷ names) ts

-- `open`, from the header that `read` returned; `map` is the file as it is opened again.
unfoldable pub open_model : GgufHeader → Bytes → Parsed MappedModel
open_model header map = do
  refuse (ltb (length map) header.file_size) (truncated 0 header.file_size (length map))
  ok (record { header = header; map = map; by_name = index_names [] header.tensors })

unfoldable pub view : MappedModel → TensorInfo → Parsed TensorView
view m t = elim (quant_lookup t.type_id) [
  | none ↦ err (unknown_tensor_type t.name t.type_id)
  | some q ↦ nbytes t >>= λ len.
      let start = sat_add64 m.header.data_offset t.offset in
      let end = sat_add64 start len in
      elim (sub_bytes start end m.map) [
        | none ↦ err (tensor_data_overruns_file t.name end (length m.map))
        | some got ↦
            ok
              (record { name = t.name; dims = t.dims; quant = q; bytes = got; file_offset = start })
      ]
]

unfoldable pub has_tensor : MappedModel → Bytes → Bool
has_tensor m name = contains (keys m.by_name) name

unfoldable pub tensor : MappedModel → Bytes → Parsed TensorView
tensor m name = elim (lookup name m.by_name) [
  | none ↦ err (tensor_not_found name)
  | some t ↦ view m t
]

unfoldable pub optional_tensor : MappedModel → Bytes → Parsed (Option TensorView)
optional_tensor m name = elim (lookup name m.by_name) [
  | none ↦ ok none
  | some t ↦ view m t >>= λ v. ok (some v)
]
