-- ===== src/Gguf/Reader.antt =====
-- `Reader` of gguf.rs: a reader checks the file's length before it reads, and counts its position.
-- `rest` is what `inner` has not read yet.
use mo_earc.Common.{
  ℕ, zero, suc, ◌+◌, ◌*◌, not, ltb, leb, ◌==◌, if◌then◌else◌, Option, none, some, [], ◌∷◌, length,
  sat_add64, sat_mul64, add64, mul64, ◌&&◌,
}
use mo_earc.Common.Results.{ok, err, ◌>>=◌, ◌>>◌, refuse}
use mo_earc.Gguf.Types.{
  Bytes, Value, Values, ModelError, Parsed, signed, io, truncated, bad_value_type, nested_array,
}

pub record Reader : Type 0 where
  pub rest : Bytes
  pub pos : ℕ
  pub file_size : ℕ

-- `Reader::new`, on a file that holds `bytes`.
unfoldable pub open_reader : Bytes → Reader
open_reader bytes = record { rest = bytes; pos = 0; file_size = length bytes }

abbrev pub truncated_at : Reader → ℕ → ModelError
truncated_at r n = truncated r.pos n r.file_size

unfoldable pub need : Reader → ℕ → Parsed (Unit {0})
need r n = refuse (ltb r.file_size (sat_add64 r.pos n)) (truncated_at r n)

-- The first `n` bytes and the others, if there are so many: `inner.read_exact`.
unfoldable pub split_bytes : ℕ → Bytes → Option (Bytes × Bytes)
split_bytes zero bytes = some ([], bytes)
split_bytes (suc n) [] = none
split_bytes (suc n) (b ∷ bytes) = elim (split_bytes n bytes) [
  | none ↦ none
  | some (front, back) ↦ some (b ∷ front, back)
]

-- `read_exact` into a buffer of `n` bytes.
unfoldable pub read_exact : Reader → ℕ → Parsed (Reader × Bytes)
read_exact r n = do
  need r n
  elim (split_bytes n r.rest) [
    | none ↦ err io
    | some (front, back) ↦ ok (record r { rest = back; pos = add64 r.pos n }, front)
  ]

-- `seek_relative` past the end is no error; the bytes that are left are then none.
unfoldable pub skip_bytes : ℕ → Bytes → Bytes
skip_bytes zero bytes = bytes
skip_bytes (suc n) [] = []
skip_bytes (suc n) (b ∷ bytes) = skip_bytes n bytes

-- `i64::MAX`
abbrev pub i64_max : ℕ
i64_max = 0x7fff_ffff_ffff_ffff

unfoldable pub skip : Reader → ℕ → Parsed Reader
skip r n = do
  need r n
  refuse (ltb i64_max n) (truncated_at r n)
  ok (record r { rest = skip_bytes n r.rest; pos = add64 r.pos n })

-- `from_le_bytes`
unfoldable pub from_le_bytes : Bytes → ℕ
from_le_bytes [] = 0
from_le_bytes (b ∷ bytes) = b + 256 * from_le_bytes bytes

unfoldable pub word : ℕ → Reader → Parsed (Reader × ℕ)
word width r = do (r', buf) ← read_exact r width; ok (r', from_le_bytes buf)

abbrev pub max_string_bytes : ℕ
max_string_bytes = 67108864

abbrev pub max_kept_array : ℕ
max_kept_array = 1024

unfoldable pub fixed_width : ℕ → Option ℕ
fixed_width id =
    if id == 0
    then some 1
    else if id == 1
    then some 1
    else if id == 7
    then some 1
    else if id == 2
    then some 2
    else if id == 3
    then some 2
    else if leb 4 id && leb id 6
    then some 4
    else if leb 10 id && leb id 12
    then some 8
    else none

-- `lossy` is `String::from_utf8_lossy`, of the standard library.
module _ (lossy : Bytes → Bytes) where
  unfoldable pub read_string : Reader → Parsed (Reader × Bytes)
  read_string r = do
    (r', len) ← word 8 r
    refuse (ltb max_string_bytes len) (truncated_at r' len)
    need r' len
    (r'', buf) ← read_exact r' len
    ok (r'', lossy buf)

  abbrev wrap : (ℕ → Value) → Reader → ℕ → Parsed (Reader × Value)
  wrap make r width = do (r', n) ← word width r; ok (r', make n)

  -- `value`, on every type but that of an array.
  unfoldable pub scalar : Reader → ℕ → Bytes → Parsed (Reader × Value)
  scalar r id key =
      if id == 0
      then wrap Value.u8 r 1
      else if id == 1
      then wrap (λ n. Value.i8 (signed 128 n)) r 1
      else if id == 2
      then wrap Value.u16 r 2
      else if id == 3
      then wrap (λ n. Value.i16 (signed 32768 n)) r 2
      else if id == 4
      then wrap Value.u32 r 4
      else if id == 5
      then wrap (λ n. Value.i32 (signed 2147483648 n)) r 4
      else if id == 6
      then wrap Value.f32 r 4
      else if id == 7
      then wrap (λ n. Value.bool (not (n == 0))) r 1
      else if id == 8
      then (read_string r >>= λ s. ok (s.0, Value.string s.1))
      else if id == 10
      then wrap Value.u64 r 8
      else if id == 11
      then wrap (λ n. Value.i64 (signed 9223372036854775808 n)) r 8
      else if id == 12
      then wrap Value.f64 r 8
      else err (bad_value_type key id)

  -- `for _ in 0..len { let n = self.u64()?; self.skip(n)? }`
  unfoldable pub skip_strings : ℕ → Reader → Parsed Reader
  skip_strings zero r = ok r
  skip_strings (suc len) r = do (r', n) ← word 8 r; r'' ← skip r' n; skip_strings len r''

  unfoldable pub elements : ℕ → Reader → ℕ → Bytes → Parsed (Reader × Values)
  elements zero r id key = ok (r, Values.last)
  elements (suc len) r id key = do
    (r', v) ← scalar r id key
    (r'', vs) ← elements len r' id key
    ok (r'', Values.next v vs)

  -- The check of an array's length or type.
  unfoldable pub check_stride : Reader → ℕ → ℕ → Bytes → Parsed (Unit {0})
  check_stride r id len key = elim (fixed_width id) [
    | some stride ↦ need r (sat_mul64 len stride)
    | none ↦ refuse (not (id == 8)) (bad_value_type key id)
  ]

  unfoldable pub skip_array : Reader → ℕ → ℕ → Parsed Reader
  skip_array r id len = elim (fixed_width id) [
    | some stride ↦ skip r (mul64 len stride)
    | none ↦ skip_strings len r
  ]

  -- What follows the checks: a long array is skipped, a short one is kept.
  unfoldable pub array_elements : Reader → ℕ → ℕ → Bytes → Parsed (Reader × Value)
  array_elements r id len key =
      if ltb max_kept_array len
      then (skip_array r id len >>= λ end. ok (end, Value.skipped_array id len))
      else (elements len r id key >>= λ kept. ok (kept.0, Value.array kept.1))

  unfoldable pub read_array : Reader → Bytes → Parsed (Reader × Value)
  read_array r key = do
    (r', id) ← word 4 r
    (r'', len) ← word 8 r'
    refuse (id == 9) (nested_array key)
    check_stride r'' id len key
    array_elements r'' id len key

  unfoldable pub value : Reader → ℕ → Bytes → Parsed (Reader × Value)
  value r id key = if id == 9 then read_array r key else scalar r id key
