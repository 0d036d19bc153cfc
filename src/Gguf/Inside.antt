-- ===== src/Gguf/Inside.antt =====
-- The reader stays inside the file: what it reads is there, and its position is exact.
use mo_earc.Common.{
  ℕ, zero, suc, ◌+◌, ◌≤◌, ◌<◌, ◌≡◌, ◌≢◌, refl, arith, ltb, some, length, u64_max, [], ◌∷◌,
  sat_add64, add64, ltb→le, false,
}
use mo_earc.Common.Results.{ok, ◌>>◌}
use mo_earc.Gguf.Types.{Bytes, Parsed, io, truncated}
use mo_earc.Gguf.Reader.{
  Reader, need, split_bytes, read_exact, skip_bytes, skip, word, truncated_at, i64_max,
}
use mo_earc.Gguf.Safe.{Safe, >>=-Safe, refuse-Safe}

-- The position is where the unread bytes of the file begin.
pub record IsReader (file : ℕ) (r : Reader) : Type 0 where
  pub size : r.file_size ≡ file
  pub position : r.pos + length r.rest ≡ file

abbrev pub At : {A : Type 0} → ℕ → Reader × A → Type 0
At file out = IsReader file out.0

pub split_bytes_total :
    (n : ℕ) (bytes : Bytes)
    → n ≤ length bytes
    → (front back : Bytes) × (split_bytes n bytes ≡ some (front, back))
      × (n + length back ≡ length bytes)
unfolding split_bytes
split_bytes_total zero bytes h = ([], bytes, refl, omega arith)
split_bytes_total (suc n) [] h = absurd (omega arith)
split_bytes_total (suc n) (b ∷ bytes) h =
    let (front, back, e, len) = split_bytes_total n bytes (omega arith) in
    (b ∷ front, back, rw e refl, omega (arith, len))

length-skip_bytes :
    (n : ℕ) (bytes : Bytes) → n ≤ length bytes → n + length (skip_bytes n bytes) ≡ length bytes
unfolding skip_bytes
length-skip_bytes zero bytes h = omega arith
length-skip_bytes (suc n) [] h = absurd (omega arith)
length-skip_bytes (suc n) (b ∷ bytes) h =
    let rest = length-skip_bytes n bytes (omega arith) in omega (arith, rest)

pub truncated_not_io : (a b c : ℕ) → truncated a b c ≢ io
truncated_not_io a b c h = cc

module _ (file : ℕ) (small : file < u64_max) where
  room :
      (r : Reader) (n : ℕ)
      → IsReader file r
      → ltb r.file_size (sat_add64 r.pos n) ≡ false
      → n ≤ length r.rest
  room r n is h = omega (arith, is.size, is.position, ltb→le _ _ h)

  pub need-Safe :
      {B : Type 0} (Q : B → Type 0) (r : Reader) (n : ℕ) (rest : Parsed B)
      → IsReader file r
      → (n ≤ length r.rest → Safe Q rest)
      → Safe Q (need r n >> rest)
  unfolding need
  need-Safe Q r n rest is f =
      refuse-Safe Q _ (truncated_at r n) rest (truncated_not_io _ _ _) (λ h. f (room r n is h))

  pub read_exact-Safe :
      (r : Reader) (n : ℕ) → IsReader file r → Safe (At {A = Bytes} file) (read_exact r n)
  unfolding read_exact Safe
  read_exact-Safe r n is = need-Safe (At {A = Bytes} file) r n _ is (λ fits.
      let (front, back, e, len) = split_bytes_total n r.rest fits in
      rw e (record { size = is.size; position = omega (arith, is.position, len, small) }))

  pub skip-Safe : (r : Reader) (n : ℕ) → IsReader file r → Safe (IsReader file) (skip r n)
  unfolding skip Safe
  skip-Safe r n is = need-Safe (IsReader file) r n _ is (λ fits.
      refuse-Safe (IsReader file) (ltb i64_max n) (truncated_at r n)
        (ok (record r { rest = skip_bytes n r.rest; pos = add64 r.pos n })) (truncated_not_io _ _ _)
        (λ h. record {
          size = is.size;
          position = omega (arith, is.position, length-skip_bytes n r.rest fits, small);
        }))

  pub word-Safe : (width : ℕ) (r : Reader) → IsReader file r → Safe (At {A = ℕ} file) (word width r)
  unfolding word Safe
  word-Safe width r is =
      >>=-Safe (At {A = Bytes} file) (At {A = ℕ} file) (read_exact r width) _
        (read_exact-Safe r width is) (λ out there. there)
