-- ===== src/Decoder/Stream.antt =====
-- What `push` returns for a token, and what the decoder then has emitted, whatever the tokenizer does.
use mathlib.Core.List.{append_assoc, append-nil}
use mo_earc.Common.{
  ℕ, zero, suc, ◌≡◌, ◌⊎◌, inl, inr, refl, sym, ap, ◌∙◌, arith, min, Bool-cases, true, false, ◌==◌,
  none, some, Option-cases, none≢some, List, [], ◌∷◌, ◌++◌, length, drop,
}
use mo_earc.Common.Results.{Result, ok, err, Result-cases}
use mo_earc.Decoder.Push.{IncrementalDecoder, is_incomplete, strip_prefix, delta_of, push}

-- A text whose last character is the replacement character.
unfoldable pub EndsIncomplete : List ℕ → Type 0
EndsIncomplete text = (front : List ℕ) × (text ≡ front ++ (0xFFFD ∷ []))

unfoldable pub IsPrefix : List ℕ → List ℕ → Type 0
IsPrefix emitted full = (rest : List ℕ) × (full ≡ emitted ++ rest)

-- What is new in a text: what follows the text emitted so far, or, where the text no longer starts with
-- that, what follows as many characters.
unfoldable pub IsDelta : List ℕ → List ℕ → List ℕ → Type 0
IsDelta emitted full delta =
    (full ≡ emitted ++ delta)
    ⊎ ((IsPrefix emitted full → ⊥)
        × ((kept : List ℕ) × (full ≡ kept ++ delta)
            × (length kept ≡ min (length emitted) (length full))))

is_incomplete-cases :
    (text : List ℕ)
    → (EndsIncomplete text × (is_incomplete text ≡ true))
      ⊎ ((EndsIncomplete text → ⊥) × (is_incomplete text ≡ false))
unfolding is_incomplete EndsIncomplete
is_incomplete-cases [] = inr ((λ (front, e). not_nil front e), refl)
  where
    not_nil : (front : List ℕ) → [] ≡ front ++ (0xFFFD ∷ []) → ⊥
    not_nil [] e = cc
    not_nil (x ∷ front) e = cc
is_incomplete-cases (c ∷ []) = elim (Bool-cases (c == 0xFFFD)) [
  | inl same ↦ inl (([], ap (λ x. x ∷ []) (beq→eq c same)), same)
  | inr differ ↦ inr ((λ (front, e). absurd (differs differ (only front e))), differ)
]
  where
    beq→eq : (x : ℕ) → (x == 0xFFFD) ≡ true → x ≡ 0xFFFD
    beq→eq x h = ground arith

    differs : (c == 0xFFFD) ≡ false → c ≡ 0xFFFD → ⊥
    differs h e = ground arith

    only : (front : List ℕ) → c ∷ [] ≡ front ++ (0xFFFD ∷ []) → c ≡ 0xFFFD
    only [] e = cc
    only (x ∷ []) e = cc
    only (x ∷ y ∷ front) e = cc
is_incomplete-cases (c ∷ d ∷ ds) = elim (is_incomplete-cases (d ∷ ds)) [
  | inl ((front, e), ends) ↦ inl ((c ∷ front, ap (◌∷◌ c) e), ends)
  | inr (whole, settled) ↦ inr ((λ (front, e). whole (tail_of front e)), settled)
]
  where
    tail_of : (front : List ℕ) → c ∷ d ∷ ds ≡ front ++ (0xFFFD ∷ []) → EndsIncomplete (d ∷ ds)
    tail_of [] e = cc
    tail_of (x ∷ front) e = (front, cc)

strip_prefix-some :
    (p text : List ℕ) {rest : List ℕ} → strip_prefix p text ≡ some rest → text ≡ p ++ rest
unfolding strip_prefix
strip_prefix-some [] text h = cc
strip_prefix-some (x ∷ p) [] h = cc
strip_prefix-some (x ∷ p) (c ∷ cs) {rest} h = elim (Bool-cases (x == c)) [
  | inl same ↦
      let e : c ≡ x = ground arith in
      let later : strip_prefix p cs ≡ some rest = rw same at h in
      ap (λ y. y ∷ cs) e ∙ ap (◌∷◌ x) (strip_prefix-some p cs later)
  | inr differ ↦ let nothing : none ≡ some rest = rw differ at h in cc
]

strip_prefix-append : (p rest : List ℕ) → strip_prefix p (p ++ rest) ≡ some rest
unfolding strip_prefix
strip_prefix-append [] rest = refl
strip_prefix-append (x ∷ p) rest =
    let same : (x == x) ≡ true = ground arith in rw same (strip_prefix-append p rest)

-- The characters that `drop` passes over.
drop-split :
    (n : ℕ) (xs : List ℕ)
    → (kept : List ℕ) × (xs ≡ kept ++ drop n xs) × (length kept ≡ min n (length xs))
drop-split zero xs = ([], refl, omega arith)
drop-split (suc n) [] = ([], refl, omega arith)
drop-split (suc n) (x ∷ xs) =
    let (kept, split, count) = drop-split n xs in (x ∷ kept, ap (◌∷◌ x) split, omega (arith, count))

delta_of-IsDelta : (emitted full : List ℕ) → IsDelta emitted full (delta_of emitted full)
unfolding delta_of IsDelta IsPrefix
delta_of-IsDelta emitted full = elim (Option-cases (strip_prefix emitted full)) [
  | inr (rest, found) ↦ rw (found, delta_of) (inl (strip_prefix-some emitted full found))
  | inl nothing ↦
      rw (nothing, delta_of)
        (inr (
          (λ (rest, e). absurd (
              none≢some nothing
                (ap (λ t. strip_prefix emitted t) e ∙ strip_prefix-append emitted rest))),
          drop-split (length emitted) full,
        ))
]

module _ {E : Type 0} (decode : List ℕ → Result E (List ℕ)) where
  -- What has been emitted is nothing, or the text of the tokens up to some point, which ended with a
  -- whole character.
  unfoldable pub IsDecoded : IncrementalDecoder → Type 0
  IsDecoded dec =
      (dec.emitted ≡ [])
      ⊎ ((ids : List ℕ) × (more : List ℕ) × (dec.ids ≡ ids ++ more)
          × (decode ids ≡ ok dec.emitted)
          × (EndsIncomplete dec.emitted → ⊥))

  -- What comes of a token: a failure of the tokenizer, a text that is held back, or a text of which
  -- what is new is returned.
  unfoldable pub Pushed : IncrementalDecoder → ℕ → IncrementalDecoder → Result E (List ℕ) → Type 0
  Pushed dec id next (err e) =
      (decode (dec.ids ++ (id ∷ [])) ≡ err e) × (next.emitted ≡ dec.emitted)
  Pushed dec id next (ok delta) =
      (full : List ℕ) × (decode (dec.ids ++ (id ∷ [])) ≡ ok full)
      × ((EndsIncomplete full × (delta ≡ []) × (next.emitted ≡ dec.emitted))
          ⊎ ((EndsIncomplete full → ⊥) × (next.emitted ≡ full) × IsDelta dec.emitted full delta))

  pub record IsPushed (dec : IncrementalDecoder) (id : ℕ)
      (result : IncrementalDecoder × Result E (List ℕ)) : Type 0 where
    pub ids : result.0.ids ≡ dec.ids ++ (id ∷ [])
    pub pushed : Pushed dec id result.0 result.1
    pub decoded : IsDecoded result.0

  -- A token more, and nothing emitted for it.
  IsDecoded-waits :
      (dec : IncrementalDecoder) (id : ℕ)
      → IsDecoded dec
      → IsDecoded (record dec { ids = dec.ids ++ (id ∷ []) })
  unfolding IsDecoded
  IsDecoded-waits dec id (inl nothing) = inl nothing
  IsDecoded-waits dec id (inr (ids, more, split, was, settled)) = inr (
    ids,
    more ++ (id ∷ []),
    ap (λ l. l ++ (id ∷ [])) split ∙ append_assoc ids more (id ∷ []),
    was,
    settled,
  )

  -- Whatever the tokenizer does, where the text emitted so far is that of the tokens up to some point, or
  -- empty: `push` keeps it so and adds the token. It fails where the tokenizer fails on all the tokens, and then
  -- emits nothing. Where their text ends with the replacement character, it returns nothing and emits
  -- nothing. Otherwise that text is what is now emitted, and what is returned is what follows the
  -- text emitted before, or, where the new text does not start with that, what follows as many of its
  -- characters, at most all.
  pub push-IsPushed :
      (dec : IncrementalDecoder) (id : ℕ) → IsDecoded dec → IsPushed dec id (push decode dec id)
  unfolding push Pushed IsDecoded
  push-IsPushed dec id s = elim (Result-cases (decode (dec.ids ++ (id ∷ [])))) [
    | inl (e, broke) ↦
        rw (broke, push)
          (record { ids = refl; pushed = (broke, refl); decoded = IsDecoded-waits dec id s })
    | inr (full, now) ↦ elim (is_incomplete-cases full) [
      | inl (ends, waits) ↦
          rw (now, push)
            (rw waits (record {
              ids = refl;
              pushed = (full, now, inl (ends, refl, refl));
              decoded = IsDecoded-waits dec id s;
            }))
      | inr (whole, goes) ↦
          rw (now, push)
            (rw goes (record {
              ids = refl;
              pushed = (full, now, inr (whole, refl, delta_of-IsDelta dec.emitted full));
              decoded =
                  inr
                    (dec.ids ++ (id ∷ []), [], sym (append-nil (dec.ids ++ (id ∷ []))), now, whole);
            }))
    ]
  ]
