-- ===== src/Gguf/Parse.antt =====
-- `read` from end to end: it never reads past the file, and what it returns is consistent with it.
use mo_earc.Common.{
  ℕ, zero, suc, ◌≤◌, ◌<◌, ◌≡◌, ◌≢◌, refl, arith, true, false, not, ◌&&◌, ◌||◌, ◌==◌, leb, ltb,
  Option-cases, inl, inr, List, [], length, u64_max, sat_mul64, lookup, insert,
}
use mo_earc.Common.Results.{ok, err}
use mo_earc.Gguf.Types.{
  Bytes, bytes_key, bytes_eq, Value, TensorInfo, GgufHeader, io, as_u64, bad_magic,
  unsupported_version, implausible_count, too_many_dims, bad_alignment,
}
use mo_earc.Gguf.Reader.{Reader, open_reader, read_exact, word, read_string, value}
use mo_earc.Gguf.Header.{
  is_power_of_two, alignment_key, alignment_of, max_dims, read_dims, read_metadata, read_tensor,
  read_tensors, read_counts, read_front, read_header, min_kv_bytes, min_tensor_bytes, magic,
}
use mo_earc.Gguf.Safe.{Safe, >>=-Safe, refuse-Safe, Safe-ok, Safe-no_io}
use mo_earc.Gguf.Inside.{IsReader, At, read_exact-Safe, word-Safe}
use mo_earc.Gguf.Inner.{read_string-Safe, value-Safe}
use mo_earc.Gguf.Spans.{IsHeader, finish_header-Safe}

alignment_of-Safe : (metadata : List (Bytes × Value)) → Safe (λ n. Unit {0}) (alignment_of metadata)
unfolding alignment_of Safe
alignment_of-Safe metadata = elim (Option-cases (lookup alignment_key metadata)) [
  | inl absent ↦ rw (absent, alignment_of) tt
  | inr (v, there) ↦ elim (Option-cases (as_u64 v)) [
    | inl other ↦ rw (there, alignment_of) (rw other (λ h. cc))
    | inr (n, number) ↦ rw (there, alignment_of) (rw number tt)
  ]
]

power_of_test :
    (n : ℕ) → ((n == 0) || not (is_power_of_two n)) ≡ false → (0 < n) × (is_power_of_two n ≡ true)
power_of_test n h = ground arith

version_of_test : (n : ℕ) → not (leb 2 n && leb n 3) ≡ false → (2 ≤ n) × (n ≤ 3)
version_of_test n h = ground arith

module _ (file : ℕ) (small : file < u64_max) where
  -- The counts: the reader is in the file, and the version is known.
  abbrev Counts : Reader × ℕ × ℕ × ℕ → Type 0
  Counts out = IsReader file out.0 × ((2 ≤ out.1) × (out.1 ≤ 3))

  read_counts-Safe : (r : Reader) → IsReader file r → Safe Counts (read_counts r)
  unfolding read_counts Safe
  read_counts-Safe r is =
      let N : Reader × ℕ → Type 0 = At {A = ℕ} file in
      >>=-Safe (At {A = Bytes} file) Counts (read_exact r 4) _ (read_exact-Safe file small r 4 is)
        (λ a at_a.
          refuse-Safe Counts (not (bytes_eq a.1 magic)) (bad_magic a.1) _ (λ h. cc)
            (λ _. >>=-Safe N Counts (word 4 a.0) _ (word-Safe file small 4 a.0 at_a) (λ b at_b.
              refuse-Safe Counts (not (leb 2 b.1 && leb b.1 3)) (unsupported_version b.1) _
                (λ h. cc)
                (λ version.
                  >>=-Safe N Counts (word 8 b.0) _ (word-Safe file small 8 b.0 at_b) (λ c at_c.
                    >>=-Safe N Counts (word 8 c.0) _ (word-Safe file small 8 c.0 at_c) (λ d at_d.
                      refuse-Safe Counts (ltb r.file_size (sat_mul64 d.1 min_kv_bytes))
                        (implausible_count d.1 r.file_size) _ (λ h. cc)
                        (λ _.
                          refuse-Safe Counts (ltb r.file_size (sat_mul64 c.1 min_tensor_bytes))
                            (implausible_count c.1 r.file_size) (ok (d.0, b.1, c.1, d.1)) (λ h. cc)
                            (λ _. (at_d, version_of_test b.1 version)))))))))

  read_dims-Safe :
      (n : ℕ) (r : Reader) → IsReader file r → Safe (At {A = List ℕ} file) (read_dims n r)
  unfolding read_dims Safe
  read_dims-Safe zero r is = is
  read_dims-Safe (suc n) r is =
      >>=-Safe (At {A = ℕ} file) (At {A = List ℕ} file) (word 8 r) _ (word-Safe file small 8 r is)
        (λ a at_a.
          >>=-Safe (At {A = List ℕ} file) (At {A = List ℕ} file) (read_dims n a.0) _
            (read_dims-Safe n a.0 at_a) (λ b at_b. at_b))

  module _ (lossy : Bytes → Bytes) where
    read_metadata-Safe :
        (count : ℕ) (r : Reader) (metadata : List (Bytes × Value))
        → IsReader file r
        → Safe (At {A = List (Bytes × Value)} file) (read_metadata lossy count r metadata)
    unfolding read_metadata Safe
    read_metadata-Safe zero r metadata is = is
    read_metadata-Safe (suc count) r metadata is =
        let M : Reader × List (Bytes × Value) → Type 0 = At {A = List (Bytes × Value)} file in
        >>=-Safe (At {A = Bytes} file) M (read_string lossy r) _
          (read_string-Safe lossy file small r is)
          (λ a at_a.
            >>=-Safe (At {A = ℕ} file) M (word 4 a.0) _ (word-Safe file small 4 a.0 at_a) (λ b at_b.
              >>=-Safe (At {A = Value} file) M (value lossy b.0 b.1 a.1) _
                (value-Safe lossy file small b.0 b.1 a.1 at_b)
                (λ c at_c. read_metadata-Safe count c.0 (insert a.1 c.1 metadata) at_c)))

    read_tensor-Safe :
        (r : Reader) → IsReader file r → Safe (At {A = TensorInfo} file) (read_tensor lossy r)
    unfolding read_tensor Safe
    read_tensor-Safe r is =
        let T : Reader × TensorInfo → Type 0 = At {A = TensorInfo} file in
        >>=-Safe (At {A = Bytes} file) T (read_string lossy r) _
          (read_string-Safe lossy file small r is)
          (λ a at_a.
            >>=-Safe (At {A = ℕ} file) T (word 4 a.0) _ (word-Safe file small 4 a.0 at_a) (λ b at_b.
              refuse-Safe T (ltb max_dims b.1) (too_many_dims a.1 b.1) _ (λ h. cc)
                (λ _.
                  >>=-Safe (At {A = List ℕ} file) T (read_dims b.1 b.0) _
                    (read_dims-Safe b.1 b.0 at_b)
                    (λ c at_c.
                      >>=-Safe (At {A = ℕ} file) T (word 4 c.0) _ (word-Safe file small 4 c.0 at_c)
                        (λ d at_d.
                          >>=-Safe (At {A = ℕ} file) T (word 8 d.0) _
                            (word-Safe file small 8 d.0 at_d) (λ e at_e. at_e))))))

    read_tensors-Safe :
        (count : ℕ) (r : Reader)
        → IsReader file r
        → Safe (At {A = List TensorInfo} file) (read_tensors lossy count r)
    unfolding read_tensors Safe
    read_tensors-Safe zero r is = is
    read_tensors-Safe (suc count) r is =
        let T : Reader × List TensorInfo → Type 0 = At {A = List TensorInfo} file in
        >>=-Safe (At {A = TensorInfo} file) T (read_tensor lossy r) _ (read_tensor-Safe r is)
          (λ a at_a.
            >>=-Safe T T (read_tensors lossy count a.0) _ (read_tensors-Safe count a.0 at_a)
              (λ b at_b. at_b))

module _ (lossy : Bytes → Bytes) (bytes : Bytes) (small : length bytes < u64_max) where
  abbrev Front : Reader × ℕ × ℕ × ℕ × List (Bytes × Value) → Type 0
  Front (r, version, count, align, metadata) =
      IsReader (length bytes) r
      × ((2 ≤ version) × (version ≤ 3))
      × ((0 < align) × (is_power_of_two align ≡ true))

  read_front-Safe : Safe Front (read_front lossy bytes)
  unfolding read_front Safe open_reader
  read_front-Safe =
      let file = length bytes in
      let start : Reader = record { rest = bytes; pos = 0; file_size = length bytes } in
      >>=-Safe (Counts file small) Front (read_counts start) _
        (read_counts-Safe file small start (record { size = refl; position = omega arith }))
        (λ (r, version, tensor_count, kv_count) (at_r, known).
          >>=-Safe (At {A = List (Bytes × Value)} file) Front (read_metadata lossy kv_count r []) _
            (read_metadata-Safe file small lossy kv_count r [] at_r)
            (λ m at_m.
              >>=-Safe (λ n. Unit {0}) Front (alignment_of m.1) _ (alignment_of-Safe m.1)
                (λ align u.
                  refuse-Safe Front ((align == 0) || not (is_power_of_two align))
                    (bad_alignment align) (ok (m.0, version, tensor_count, align, m.1)) (λ h. cc)
                    (λ test. (at_m, known, power_of_test align test)))))

  read_header-Safe : Safe (IsHeader (length bytes)) (read_header lossy bytes)
  unfolding read_header
  read_header-Safe =
      let file = length bytes in
      >>=-Safe Front (IsHeader file) (read_front lossy bytes) _ read_front-Safe
        (λ (r, version, count, align, metadata) (at_r, known, power).
          >>=-Safe (At {A = List TensorInfo} file) (IsHeader file) (read_tensors lossy count r) _
            (read_tensors-Safe file small lossy count r at_r)
            (λ ts at_ts.
              finish_header-Safe file small version align metadata ts.0 ts.1 at_ts.size known
                power))

  -- For a file of fewer than 2^64 - 1 bytes: `read` never asks the file for bytes that it does not have,
  -- so an error of the file system does not come from a file that is cut short.
  pub read_header-no_io : read_header lossy bytes ≢ err io
  read_header-no_io =
      Safe-no_io (IsHeader (length bytes)) (read_header lossy bytes) read_header-Safe

  -- For a file of fewer than 2^64 - 1 bytes: a header that is returned is of version 2 or 3, its
  -- alignment is a power of two, and every tensor's bytes lie inside the file.
  pub read_header-IsHeader :
      {h : GgufHeader} → read_header lossy bytes ≡ ok h → IsHeader (length bytes) h
  read_header-IsHeader =
      Safe-ok (IsHeader (length bytes)) (read_header lossy bytes) read_header-Safe
