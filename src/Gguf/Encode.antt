-- ===== src/Gguf/Encode.antt =====
-- An encoder of words and strings, and that the reader inverts it.
use mo_earc.Common.{
  ℕ, zero, suc, ◌+◌, ◌*◌, ◌/◌, ◌%◌, ◌≤◌, ◌<◌, ◌≡◌, refl, ap, sym, arith, some, [], ◌∷◌, ◌++◌,
  length, length-append, u64_max, le→ltb, ltb, sat_add64, add64, false,
}
use mo_earc.Common.Results.{ok}
use mo_earc.Gguf.Types.{Bytes}
use mo_earc.Gguf.Reader.{
  Reader, need, split_bytes, read_exact, from_le_bytes, word, read_string, max_string_bytes,
}
use mo_earc.Gguf.Inside.{IsReader}

-- The `width` low bytes of a word, the lowest first.
unfoldable pub encode_word : ℕ → ℕ → Bytes
encode_word zero n = []
encode_word (suc width) n = (n % 256) ∷ encode_word width (n / 256)

-- How many values a word of `width` bytes has.
unfoldable pub word_range : ℕ → ℕ
word_range zero = 1
word_range (suc width) = 256 * word_range width

-- A string in front of `tail`.
unfoldable pub encode_string : Bytes → Bytes → Bytes
encode_string s tail = encode_word 8 (length s) ++ (s ++ tail)

length-encode_word : (width n : ℕ) → length (encode_word width n) ≡ width
unfolding encode_word
length-encode_word zero n = refl
length-encode_word (suc width) n = omega (arith, length-encode_word width (n / 256))

pub from_le_bytes-encode_word :
    (width n : ℕ) → n < word_range width → from_le_bytes (encode_word width n) ≡ n
unfolding from_le_bytes encode_word word_range
from_le_bytes-encode_word zero n h = omega arith
from_le_bytes-encode_word (suc width) n h =
    let high = from_le_bytes-encode_word width (n / 256) (omega arith) in omega (arith, high)

split_bytes-append :
    (front tail : Bytes) → split_bytes (length front) (front ++ tail) ≡ some (front, tail)
unfolding split_bytes
split_bytes-append [] tail = refl
split_bytes-append (b ∷ front) tail = rw (split_bytes-append front tail) refl

-- The reader `r`, once it has read `n` bytes and `tail` is left.
abbrev pub after : Reader → ℕ → Bytes → Reader
after r n tail = record { rest = tail; pos = r.pos + n; file_size = r.file_size }

in_range : (n : ℕ) → n ≤ max_string_bytes → n < word_range 8
unfolding word_range
in_range n h = omega arith

module _ (file : ℕ) (small : file < u64_max) where
  read_exact-append :
      (r : Reader) (n : ℕ) (front tail : Bytes)
      → IsReader file r
      → n ≡ length front
      → r.rest ≡ front ++ tail
      → read_exact r n ≡ ok (after r n tail, front)
  unfolding read_exact need
  read_exact-append r n front tail is len e =
      let total : n + length tail ≡ length r.rest =
        omega (arith, len, ap (length {A = ℕ}) e, length-append front tail) in
      let fits : ltb r.file_size (sat_add64 r.pos n) ≡ false =
        le→ltb (sat_add64 r.pos n) r.file_size (omega (arith, is.size, is.position, total)) in
      let there : split_bytes n r.rest ≡ some (front, tail) =
        rw (len, e) (split_bytes-append front tail) in
      let at : add64 r.pos n ≡ r.pos + n = omega (arith, is.position, total, small) in
      rw fits (rw there (rw at refl))

  -- What is left after a whole word or string is again a reader in the file.
  after-IsReader :
      (r : Reader) (n : ℕ) (front tail : Bytes)
      → IsReader file r
      → n ≡ length front
      → r.rest ≡ front ++ tail
      → IsReader file (after r n tail)
  after-IsReader r n front tail is len e = record {
    size = is.size;
    position = omega (arith, is.position, len, ap (length {A = ℕ}) e, length-append front tail);
  }

  word-encode_word :
      (width n : ℕ) (r : Reader) (tail : Bytes)
      → IsReader file r
      → n < word_range width
      → r.rest ≡ encode_word width n ++ tail
      → word width r ≡ ok (after r width tail, n)
  unfolding word
  word-encode_word width n r tail is range e =
      rw
        (read_exact-append r width (encode_word width n) tail is (sym (length-encode_word width n))
          e)
        (rw (from_le_bytes-encode_word width n range) refl)

  -- In a file of fewer than 2^64 - 1 bytes, at an encoded string of at most 2^26 bytes: `string` reads
  -- its bytes, which `lossy` turns into text, and leaves the reader right behind it.
  pub read_string-encode_string :
      (lossy : Bytes → Bytes) (s tail : Bytes) (r : Reader)
      → IsReader file r
      → length s ≤ max_string_bytes
      → r.rest ≡ encode_string s tail
      → read_string lossy r ≡ ok (after r (8 + length s) tail, lossy s)
  unfolding read_string encode_string need
  read_string-encode_string lossy s tail r is short e =
      let len : ℕ = length s in
      let body : Reader = after r 8 (s ++ tail) in
      let at_body : IsReader file body =
        after-IsReader r 8 (encode_word 8 len) (s ++ tail) is (sym (length-encode_word 8 len)) e in
      let size_read : word 8 r ≡ ok (body, len) =
        word-encode_word 8 len r (s ++ tail) is (in_range len short) e in
      let got : read_exact body len ≡ ok (after body len tail, s) =
        read_exact-append body len s tail at_body refl refl in
      let roomy : ltb body.file_size (sat_add64 body.pos len) ≡ false =
        le→ltb (sat_add64 body.pos len) body.file_size
          (omega (arith, at_body.size, at_body.position, length-append s tail)) in
      let there : r.pos + 8 + len ≡ r.pos + (8 + len) = omega arith in
      rw (size_read, le→ltb len max_string_bytes short) (rw (roomy, need) (rw got (rw there refl)))
