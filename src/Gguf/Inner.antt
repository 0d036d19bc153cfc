-- ===== src/Gguf/Inner.antt =====
-- Strings, values and arrays are read inside the file.
use mo_earc.Common.{ℕ, zero, suc, ◌<◌, ◌≢◌, Option-cases, inl, inr, ltb, not, ◌==◌, u64_max, mul64}
use mo_earc.Common.Results.{ok, ◌>>=◌}
use mo_earc.Gguf.Types.{Bytes, Value, Values, io, bad_value_type, nested_array, signed}
use mo_earc.Gguf.Reader.{
  Reader, need, read_exact, skip, word, truncated_at, max_string_bytes, read_string, scalar,
  skip_strings, elements, check_stride, skip_array, array_elements, read_array, value, fixed_width,
  max_kept_array,
}
use mo_earc.Gguf.Safe.{Safe, >>=-Safe, refuse-Safe, if-Safe, refuse_alone}
use mo_earc.Gguf.Inside.{
  IsReader, At, need-Safe, read_exact-Safe, skip-Safe, word-Safe, truncated_not_io,
}

bad_type_not_io : (key : Bytes) (id : ℕ) → bad_value_type key id ≢ io
bad_type_not_io key id h = cc

nested_not_io : (key : Bytes) → nested_array key ≢ io
nested_not_io key h = cc

module _ (lossy : Bytes → Bytes) (file : ℕ) (small : file < u64_max) where
  pub read_string-Safe :
      (r : Reader) → IsReader file r → Safe (At {A = Bytes} file) (read_string lossy r)
  unfolding read_string Safe
  read_string-Safe r is =
      >>=-Safe (At {A = ℕ} file) (At {A = Bytes} file) (word 8 r) _ (word-Safe file small 8 r is)
        (λ out there.
          refuse-Safe (At {A = Bytes} file) (ltb max_string_bytes out.1) (truncated_at out.0 out.1)
            _ (truncated_not_io _ _ _)
            (λ _. need-Safe file small (At {A = Bytes} file) out.0 out.1 _ there (λ _.
              >>=-Safe (At {A = Bytes} file) (At {A = Bytes} file) (read_exact out.0 out.1) _
                (read_exact-Safe file small out.0 out.1 there) (λ got here. here))))

  wrapped :
      (make : ℕ → Value) (r : Reader) (width : ℕ)
      → IsReader file r
      → Safe (At {A = Value} file) (word width r >>= λ out. ok (out.0, make out.1))
  unfolding Safe
  wrapped make r width is =
      >>=-Safe (At {A = ℕ} file) (At {A = Value} file) (word width r) _
        (word-Safe file small width r is) (λ out there. there)

  scalar-Safe :
      (r : Reader) (id : ℕ) (key : Bytes)
      → IsReader file r
      → Safe (At {A = Value} file) (scalar lossy r id key)
  unfolding scalar Safe
  scalar-Safe r id key is =
      let V : Reader × Value → Type 0 = At {A = Value} file in
      if-Safe V (id == 0) _ _ (wrapped Value.u8 r 1 is) (
        if-Safe V (id == 1) _ _ (wrapped (λ n. Value.i8 (signed 128 n)) r 1 is) (
          if-Safe V (id == 2) _ _ (wrapped Value.u16 r 2 is) (
            if-Safe V (id == 3) _ _ (wrapped (λ n. Value.i16 (signed 32768 n)) r 2 is) (
              if-Safe V (id == 4) _ _ (wrapped Value.u32 r 4 is) (
                if-Safe V (id == 5) _ _ (wrapped (λ n. Value.i32 (signed 2147483648 n)) r 4 is) (
                  if-Safe V (id == 6) _ _ (wrapped Value.f32 r 4 is) (
                    if-Safe V (id == 7) _ _ (wrapped (λ n. Value.bool (not (n == 0))) r 1 is) (
                      if-Safe V (id == 8) _ _
                        (>>=-Safe (At {A = Bytes} file) V (read_string lossy r) _
                          (read_string-Safe r is) (λ out there. there))
                        (if-Safe V (id == 10) _ _ (wrapped Value.u64 r 8 is) (
                          if-Safe V (id == 11) _ _
                            (wrapped (λ n. Value.i64 (signed 9223372036854775808 n)) r 8 is)
                            (if-Safe V (id == 12) _ _ (wrapped Value.f64 r 8 is)
                              (bad_type_not_io key id))))))))))))

  skip_strings-Safe :
      (len : ℕ) (r : Reader) → IsReader file r → Safe (IsReader file) (skip_strings lossy len r)
  unfolding skip_strings Safe
  skip_strings-Safe zero r is = is
  skip_strings-Safe (suc len) r is =
      >>=-Safe (At {A = ℕ} file) (IsReader file) (word 8 r) _ (word-Safe file small 8 r is)
        (λ out there.
          >>=-Safe (IsReader file) (IsReader file) (skip out.0 out.1) _
            (skip-Safe file small out.0 out.1 there) (λ end here. skip_strings-Safe len end here))

  elements-Safe :
      (len : ℕ) (r : Reader) (id : ℕ) (key : Bytes)
      → IsReader file r
      → Safe (At {A = Values} file) (elements lossy len r id key)
  unfolding elements Safe
  elements-Safe zero r id key is = is
  elements-Safe (suc len) r id key is =
      >>=-Safe (At {A = Value} file) (At {A = Values} file) (scalar lossy r id key) _
        (scalar-Safe r id key is)
        (λ out there.
          >>=-Safe (At {A = Values} file) (At {A = Values} file) (elements lossy len out.0 id key) _
            (elements-Safe len out.0 id key there) (λ end here. here))

  check_stride-Safe :
      (r : Reader) (id len : ℕ) (key : Bytes)
      → Safe (λ u. Unit {0}) (check_stride lossy r id len key)
  unfolding check_stride need Safe
  check_stride-Safe r id len key = elim (Option-cases (fixed_width id)) [
    | inl strings ↦
        rw (strings, check_stride)
          (refuse_alone (λ u. Unit {0}) (not (id == 8)) (bad_value_type key id)
            (bad_type_not_io key id) (λ _. tt))
    | inr (stride, fixed) ↦
        rw (fixed, check_stride)
          (refuse_alone (λ u. Unit {0}) _ _ (truncated_not_io _ _ _) (λ _. tt))
  ]

  skip_array-Safe :
      (r : Reader) (id len : ℕ) → IsReader file r → Safe (IsReader file) (skip_array lossy r id len)
  unfolding skip_array Safe
  skip_array-Safe r id len is = elim (Option-cases (fixed_width id)) [
    | inl strings ↦ rw (strings, skip_array) (skip_strings-Safe len r is)
    | inr (stride, fixed) ↦ rw (fixed, skip_array) (skip-Safe file small r (mul64 len stride) is)
  ]

  array_elements-Safe :
      (r : Reader) (id len : ℕ) (key : Bytes)
      → IsReader file r
      → Safe (At {A = Value} file) (array_elements lossy r id len key)
  unfolding array_elements Safe
  array_elements-Safe r id len key is =
      let V : Reader × Value → Type 0 = At {A = Value} file in
      if-Safe V (ltb max_kept_array len) _ _
        (>>=-Safe (IsReader file) V (skip_array lossy r id len) _ (skip_array-Safe r id len is)
          (λ end here. here))
        (>>=-Safe (At {A = Values} file) V (elements lossy len r id key) _
          (elements-Safe len r id key is) (λ kept here. here))

  read_array-Safe :
      (r : Reader) (key : Bytes)
      → IsReader file r
      → Safe (At {A = Value} file) (read_array lossy r key)
  unfolding read_array
  read_array-Safe r key is =
      let V : Reader × Value → Type 0 = At {A = Value} file in
      >>=-Safe (At {A = ℕ} file) V (word 4 r) _ (word-Safe file small 4 r is) (λ a at_a.
        >>=-Safe (At {A = ℕ} file) V (word 8 a.0) _ (word-Safe file small 8 a.0 at_a) (λ b at_b.
          refuse-Safe V (a.1 == 9) (nested_array key) _ (nested_not_io key) (λ _.
            >>=-Safe (λ u. Unit {0}) V (check_stride lossy b.0 a.1 b.1 key) _
              (check_stride-Safe b.0 a.1 b.1 key)
              (λ u fine. array_elements-Safe b.0 a.1 b.1 key at_b))))

  pub value-Safe :
      (r : Reader) (id : ℕ) (key : Bytes)
      → IsReader file r
      → Safe (At {A = Value} file) (value lossy r id key)
  unfolding value
  value-Safe r id key is =
      if-Safe (At {A = Value} file) (id == 9) _ _ (read_array-Safe r key is)
        (scalar-Safe r id key is)
