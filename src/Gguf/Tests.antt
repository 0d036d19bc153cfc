-- ===== src/Gguf/Tests.antt =====
-- A file with one key and one tensor of two `f32`, cut short and whole.
use mo_earc.Common.{
  ◌≡◌, ◌≢◌, refl, arith, [], ◌∷◌, ◌++◌, length, replicate, lookup, insert, div_ceil,
}
use mo_earc.Common.Results.{ok, err}
use mo_earc.Gguf.Types.{Bytes, bytes_eq, Value, GgufHeader, as_u64, io, tensor_data_overruns_file}
use mo_earc.Gguf.Quant.{types, find_id, quant_lookup}
use mo_earc.Gguf.Reader.{
  Reader, open_reader, need, split_bytes, read_exact, from_le_bytes, word, read_string, scalar,
  value,
}
use mo_earc.Gguf.Header.{
  product_from, n_elements, nbytes_of, nbytes, pad_to, doubling, is_power_of_two, alignment_of,
  read_dims, check_tensor, check_tensors, read_metadata, read_tensor, read_tensors, finish_header,
  read_counts, read_front, read_header,
}
use mo_earc.Gguf.Spans.{IsHeader}
use mo_earc.Gguf.Parse.{read_header-no_io, read_header-IsHeader}
use mo_earc.Gguf.Encode.{encode_word, encode_string, after, read_string-encode_string}

program : Unit {0}
unfolding bytes_eq as_u64 types find_id quant_lookup open_reader need split_bytes read_exact
    from_le_bytes word read_string scalar value product_from n_elements nbytes_of nbytes pad_to
    doubling is_power_of_two alignment_of read_dims check_tensor check_tensors read_metadata
    read_tensor read_tensors finish_header read_counts read_front read_header div_ceil lookup insert
program = tt

-- The text is taken as it is.
abbrev plain : Bytes → Bytes
plain s = s

abbrev index : Bytes
index =
    71 ∷ 71 ∷ 85 ∷ 70 ∷ 3 ∷ 0 ∷ 0 ∷ 0 ∷ 1 ∷ 0 ∷ 0 ∷ 0 ∷ 0 ∷ 0 ∷ 0 ∷ 0 ∷ 1 ∷ 0 ∷ 0 ∷ 0 ∷ 0 ∷ 0 ∷ 0
    ∷ 0 ∷ 1 ∷ 0 ∷ 0 ∷ 0 ∷ 0 ∷ 0 ∷ 0 ∷ 0 ∷ 97 ∷ 4 ∷ 0 ∷ 0 ∷ 0 ∷ 7 ∷ 0 ∷ 0 ∷ 0 ∷ 1 ∷ 0 ∷ 0 ∷ 0 ∷ 0 ∷ 0
    ∷ 0 ∷ 0 ∷ 116 ∷ 1 ∷ 0 ∷ 0 ∷ 0 ∷ 2 ∷ 0 ∷ 0 ∷ 0 ∷ 0 ∷ 0 ∷ 0 ∷ 0 ∷ 0 ∷ 0 ∷ 0 ∷ 0 ∷ 0 ∷ 0 ∷ 0 ∷ 0
    ∷ 0 ∷ 0 ∷ 0 ∷ 0 ∷ []

abbrev file : Bytes
file = index ++ replicate 54 0

abbrev header : GgufHeader
header = record {
  version = 3;
  alignment = 32;
  data_offset = 96;
  file_size = 128;
  metadata = (97 ∷ [], Value.u32 7) ∷ [];
  tensors = record { name = 116 ∷ []; dims = 2 ∷ []; type_id = 0; offset = 0 } ∷ [];
}

whole : read_header plain file ≡ ok header
unfolding program
whole = refl

-- The index alone: the data that it claims is missing.
cut : read_header plain index ≡ err (tensor_data_overruns_file (116 ∷ []) 128 74)
unfolding program
cut = refl

read_header-no_io_example : read_header plain index ≢ err io
read_header-no_io_example = read_header-no_io plain index (omega arith)

read_header-IsHeader_example : IsHeader (length file) header
read_header-IsHeader_example = read_header-IsHeader plain file (omega arith) whole

abbrev two_letters : Reader
two_letters = record {
  rest = 2 ∷ 0 ∷ 0 ∷ 0 ∷ 0 ∷ 0 ∷ 0 ∷ 0 ∷ 104 ∷ 105 ∷ 33 ∷ [];
  pos = 5;
  file_size = 16;
}

at_two_letters : two_letters.rest ≡ encode_string (104 ∷ 105 ∷ []) (33 ∷ [])
unfolding encode_string encode_word
at_two_letters = refl

read_string-encode_string_example :
    read_string plain two_letters ≡ ok (after two_letters 10 (33 ∷ []), 104 ∷ 105 ∷ [])
read_string-encode_string_example =
    read_string-encode_string 16 (omega arith) plain (104 ∷ 105 ∷ []) (33 ∷ []) two_letters
      (record { size = refl; position = refl }) (omega arith) at_two_letters
