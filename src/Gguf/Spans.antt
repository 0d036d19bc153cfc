-- ===== src/Gguf/Spans.antt =====
-- What a header promises: it is in a known version, and every tensor lies inside the file.
use mo_earc.Common.{
  ℕ, ◌+◌, ◌≤◌, ◌<◌, ◌≡◌, ◌≢◌, refl, arith, true, Option-cases, inl, inr, List, [], ◌∷◌, All,
  u64_max, div_ceil_bounds, ltb→le,
}
use mo_earc.Common.Results.{ok, err}
use mo_earc.Gguf.Types.{Bytes, bytes_key, Value, TensorInfo, GgufHeader, io}
use mo_earc.Gguf.Quant.{QuantType, quant_lookup}
use mo_earc.Gguf.Reader.{Reader}
use mo_earc.Gguf.Header.{
  nbytes_of, nbytes, pad_to, is_power_of_two, check_tensor, check_tensors, finish_header,
}
use mo_earc.Gguf.Safe.{Safe, >>=-Safe, refuse_alone, Safe-self, Safe-imp}

-- A tensor whose bytes all lie in a file of `file` bytes, from where the data starts.
pub InFile : ℕ → ℕ → TensorInfo → Type 0
InFile data_offset file t = (b : ℕ) × (nbytes t ≡ ok b) × (data_offset + t.offset + b ≤ file)

pub record IsHeader (file : ℕ) (h : GgufHeader) : Type 0 where
  pub size : h.file_size ≡ file
  pub known_version : (2 ≤ h.version) × (h.version ≤ 3)
  pub power : is_power_of_two h.alignment ≡ true
  pub spans : All (InFile h.data_offset file) h.tensors

nbytes_of-no_io : (t : TensorInfo) (q : QuantType) → nbytes_of t q ≢ err io
unfolding nbytes_of
nbytes_of-no_io t q h = ground arith

nbytes-no_io : (t : TensorInfo) → nbytes t ≢ err io
unfolding nbytes
nbytes-no_io t = elim (Option-cases (quant_lookup t.type_id)) [
  | inl unknown ↦ rw (unknown, nbytes) (λ h. cc)
  | inr (q, known) ↦ rw (known, nbytes) (nbytes_of-no_io t q)
]

pad_to-le : (n align : ℕ) → 0 < align → pad_to n align < u64_max → n ≤ pad_to n align
unfolding pad_to
pad_to-le n align pos small = omega (arith, (div_ceil_bounds n align (omega arith)).0)

module _ (file : ℕ) (small : file < u64_max) where
  check_tensor-Safe :
      (data_offset align : ℕ) (t : TensorInfo)
      → 0 < align
      → Safe (λ u. InFile data_offset file t) (check_tensor data_offset align file t)
  unfolding check_tensor InFile
  check_tensor-Safe data_offset align t pos =
      >>=-Safe (λ b. nbytes t ≡ ok b) (λ u. InFile data_offset file t) (nbytes t) _
        (Safe-self (nbytes t) (nbytes-no_io t))
        (λ b e.
          refuse_alone (λ u. InFile data_offset file t) _ _ (λ h. cc)
            (λ inside. (
              b,
              e,
              omega (
                arith,
                ltb→le _ _ inside,
                pad_to-le b align pos (omega (arith, ltb→le _ _ inside)),
              ),
            )))

  check_tensors-Safe :
      (data_offset align : ℕ) (ts : List TensorInfo)
      → 0 < align
      → Safe (λ u. All (InFile data_offset file) ts) (check_tensors data_offset align file ts)
  unfolding check_tensors Safe
  check_tensors-Safe data_offset align [] pos = tt
  check_tensors-Safe data_offset align (t ∷ ts) pos =
      >>=-Safe (λ u. InFile data_offset file t) (λ u. All (InFile data_offset file) (t ∷ ts))
        (check_tensor data_offset align file t) _ (check_tensor-Safe data_offset align t pos)
        (λ u one.
          Safe-imp (λ u. All (InFile data_offset file) ts)
            (λ u. All (InFile data_offset file) (t ∷ ts)) (check_tensors data_offset align file ts)
            (λ u rest. (one, rest)) (check_tensors-Safe data_offset align ts pos))

  pub finish_header-Safe :
      (version align : ℕ) (metadata : List (Bytes × Value)) (r : Reader) (ts : List TensorInfo)
      → r.file_size ≡ file
      → (2 ≤ version) × (version ≤ 3)
      → (0 < align) × (is_power_of_two align ≡ true)
      → Safe (IsHeader file) (finish_header version align metadata r ts)
  unfolding finish_header Safe
  finish_header-Safe version align metadata r ts size known (pos, power) = rw size (
      >>=-Safe (λ u. All (InFile (pad_to r.pos align) file) ts) (IsHeader file)
        (check_tensors (pad_to r.pos align) align file ts) _
        (check_tensors-Safe (pad_to r.pos align) align ts pos)
        (λ u spans. record { size = refl; known_version = known; power = power; spans = spans }))
