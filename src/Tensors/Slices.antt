-- ===== src/Tensors/Slices.antt =====
-- A slice of a view lies inside the view, and the slices of all indices fill it.
use mo_earc.Common.{
  ℕ, ◌+◌, ◌-◌, ◌*◌, ◌%◌, ◌≤◌, ◌<◌, ◌≡◌, ◌⊎◌, refl, arith, Bool, true, false, not, ◌==◌, leb, some,
  Option-cases, inl, inr, List, length, take, drop, sat_mul64, mul64, add64, u64_max, mul-le_right,
  length-drop, length-take_of_le,
}
use mo_earc.Common.Results.{ok, err, >>=-eq-ok, refuse-eq-ok, refuse}
use mo_earc.Gguf.Types.{Bytes, ModelError, Parsed, not_sliceable}
use mo_earc.Gguf.Header.{product_from}
use mo_earc.Tensors.Views.{
  TensorView, sub_bytes, split_last, slice_bytes, check_slice, cut_slice, slice_last_dim,
}

-- What a slice is: `count` slices of the same size fill the data, and this is the one at `index`.
pub record IsSlice (v : TensorView) (index : ℕ) (w : TensorView) : Type 0 where
  pub count : ℕ
  pub last_dim : split_last v.dims ≡ some (count, w.dims)
  pub in_range : index < count
  pub fills : length w.bytes * count ≡ length v.bytes
  pub bytes : w.bytes ≡ take (length w.bytes) (drop (length w.bytes * index) v.bytes)
  pub file_offset : w.file_offset ≡ v.file_offset + length w.bytes * index

sub_bytes_run :
    (start n : ℕ) (bytes : Bytes)
    → start + n ≤ length bytes
    → (sub_bytes start (start + n) bytes ≡ some (take n (drop start bytes)))
      × (length (take n (drop start bytes)) ≡ n)
unfolding sub_bytes
sub_bytes_run start n bytes h =
    let upward : leb start (start + n) ≡ true = ground arith in
    let inside : leb (start + n) (length bytes) ≡ true = ground arith in
    let size : start + n - start ≡ n = omega arith in
    (
      rw (upward, inside) (rw size refl),
      length-take_of_le n (drop start bytes) (omega (arith, length-drop start bytes)),
    )

-- Where the checks have passed, the slice does not wrap and lies in the data.
slice_fits :
    (n count index size : ℕ)
    → size < u64_max
    → index < count
    → sat_mul64 n count ≡ size
    → (n * count ≡ size) × (n * index + n ≤ size)
slice_fits n count index size small below e =
    let whole : n * count ≡ size = omega arith in
    let up : n * (index + 1) ≤ n * count = mul-le_right n (index + 1) count (omega arith) in
    (whole, omega arith)

-- The two checks of `check_slice` that the slice depends on.
check_slice_ok :
    (v : TensorView) (index count : ℕ) (inner : List ℕ) {u : Unit {0}}
    → check_slice v index count inner ≡ ok u
    → (index < count) × (sat_mul64 (slice_bytes v.quant inner) count ≡ length v.bytes)
unfolding check_slice
check_slice_ok v index count inner h =
    let blocks : Bool = not ((product_from 1 inner % v.quant.block_size) == 0) in
    let (u1, a, h1) = >>=-eq-ok (refuse (length inner == 0) _) _ h in
    let (u2, b, h2) = >>=-eq-ok (refuse (leb count index) _) _ h1 in
    let (u3, c, h3) = >>=-eq-ok (refuse blocks _) _ h2 in
    let inside : leb count index ≡ false = refuse-eq-ok _ _ b in
    let same : not (sat_mul64 (slice_bytes v.quant inner) count == length v.bytes) ≡ false =
      refuse-eq-ok _ _ h3 in
    (ground arith, ground arith)

Parsed-cases :
    {A : Type 0} (m : Parsed A) → ((e : ModelError) × (m ≡ err e)) ⊎ ((x : A) × (m ≡ ok x))
Parsed-cases (ok x) = inr (x, refl)
Parsed-cases (err e) = inl (e, refl)

cut_slice_run :
    (v : TensorView) (index count : ℕ) (inner : List ℕ)
    → v.file_offset + length v.bytes ≤ u64_max
    → length v.bytes < u64_max
    → split_last v.dims ≡ some (count, inner)
    → index < count
    → sat_mul64 (slice_bytes v.quant inner) count ≡ length v.bytes
    → (w : TensorView) × (cut_slice v index inner ≡ some w) × IsSlice v index w
unfolding cut_slice
cut_slice_run v index count inner offset small dims below total =
    let n = slice_bytes v.quant inner in
    let (whole, fits) = slice_fits n count index (length v.bytes) small below total in
    let (got, size) = sub_bytes_run (n * index) n v.bytes fits in
    let start : mul64 n index ≡ n * index = omega (arith, fits) in
    let end : add64 (n * index) n ≡ n * index + n = omega (arith, fits) in
    let place : add64 v.file_offset (n * index) ≡ v.file_offset + n * index = omega (arith, fits) in
    (
      record v {
        dims = inner;
        bytes = take n (drop (n * index) v.bytes);
        file_offset = v.file_offset + n * index;
      },
      rw (start, cut_slice) (rw end (rw got (rw start (rw place refl)))),
      record {
        count = count;
        last_dim = dims;
        in_range = below;
        fills = rw size whole;
        bytes = rw size refl;
        file_offset = rw size refl;
      },
    )

-- For a view of fewer than 2^64 - 1 bytes that ends below 2^64, of a type whose blocks are not
-- empty: slicing never panics, and a slice that is returned is the one at the index, of the slices of
-- equal size that fill the view.
pub slice_last_dim-IsSlice :
    (v : TensorView) (index : ℕ)
    → 0 < v.quant.block_size
    → v.file_offset + length v.bytes ≤ u64_max
    → length v.bytes < u64_max
    → (p : Parsed TensorView) × (slice_last_dim v index ≡ some p)
      × ((w : TensorView) → p ≡ ok w → IsSlice v index w)
unfolding slice_last_dim
slice_last_dim-IsSlice v index blocks offset small = elim (Option-cases (split_last v.dims)) [
  | inl rank_zero ↦ (err (not_sliceable v.name 0), rw (rank_zero, slice_last_dim) refl, λ w h. cc)
  | inr ((count, inner), dims) ↦ elim (Parsed-cases (check_slice v index count inner)) [
    | inl (e, failed) ↦ (err e, rw (dims, slice_last_dim) (rw failed refl), λ w h. cc)
    | inr (u, passed) ↦
        let (below, total) = check_slice_ok v index count inner passed in
        let (w, ran, is) = cut_slice_run v index count inner offset small dims below total in
        (
          ok w,
          rw (dims, slice_last_dim) (rw passed (rw ran refl)),
          λ w' h. let same : w ≡ w' = cc in rw (← same) is,
        )
  ]
]
