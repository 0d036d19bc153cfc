-- ===== src/Tensors/Tests.antt =====
-- A view of six bytes: three slices of two.
use mo_earc.Common.{◌≡◌, refl, arith, some, [], ◌∷◌}
use mo_earc.Common.Results.{ok}
use mo_earc.Gguf.Types.{Parsed}
use mo_earc.Gguf.Header.{product_from}
use mo_earc.Tensors.Views.{
  TensorView, sub_bytes, split_last, slice_bytes, check_slice, cut_slice, slice_last_dim,
}
use mo_earc.Tensors.Slices.{IsSlice, slice_last_dim-IsSlice}

abbrev bank : TensorView
bank = record {
  name = 98 ∷ [];
  dims = 2 ∷ 3 ∷ [];
  quant = record { id = 24; name = "i8"; block_size = 1; type_size = 1 };
  bytes = 10 ∷ 11 ∷ 20 ∷ 21 ∷ 30 ∷ 31 ∷ [];
  file_offset = 64;
}

abbrev second : TensorView
second = record bank { dims = 2 ∷ []; bytes = 20 ∷ 21 ∷ []; file_offset = 66 }

slice_second : slice_last_dim bank 1 ≡ some (ok second)
unfolding slice_last_dim split_last check_slice cut_slice slice_bytes product_from sub_bytes
slice_second = refl

slice_last_dim-IsSlice_example :
    (p : Parsed TensorView) × (slice_last_dim bank 1 ≡ some p)
    × ((w : TensorView) → p ≡ ok w → IsSlice bank 1 w)
slice_last_dim-IsSlice_example =
    slice_last_dim-IsSlice bank 1 (omega arith) (omega arith) (omega arith)
