-- ===== src/Decoder/Tests.antt =====
-- A tokenizer whose text changes at its start with the second token, and a decoder that has one token.
use mo_earc.Common.{ℕ, ◌≡◌, refl, arith, inr, List, [], ◌∷◌, ◌++◌}
use mo_earc.Common.Results.{Result, ok}
use mo_earc.Decoder.Push.{IncrementalDecoder, is_incomplete, strip_prefix, delta_of, push}
use mo_earc.Decoder.Stream.{EndsIncomplete, IsDecoded, IsPushed, push-IsPushed}

abbrev recased : List ℕ → Result ℕ (List ℕ)
recased [] = ok []
recased (x ∷ []) = ok (104 ∷ [])
recased (x ∷ y ∷ ys) = ok (72 ∷ y ∷ [])

abbrev one_letter : IncrementalDecoder
one_letter = record { ids = 1 ∷ []; emitted = 104 ∷ [] }

whole_letter : EndsIncomplete (104 ∷ []) → ⊥
unfolding EndsIncomplete
whole_letter (front, e) = absurd (omega (arith, only 104 front e))
  where
    only : (c : ℕ) (front : List ℕ) → c ∷ [] ≡ front ++ (0xFFFD ∷ []) → c ≡ 0xFFFD
    only c [] e' = cc
    only c (x ∷ []) e' = cc
    only c (x ∷ y ∷ front') e' = cc

one_letter-IsDecoded : IsDecoded recased one_letter
unfolding IsDecoded
one_letter-IsDecoded = inr (1 ∷ [], [], refl, refl, whole_letter)

-- A replacement character is held back.
held_back : (push recased one_letter 0xFFFD).1 ≡ ok []
unfolding push is_incomplete
held_back = refl

-- Where the start of the text has changed, only what follows as many characters is returned.
follows_as_many : (push recased one_letter 105).1 ≡ ok (105 ∷ [])
unfolding push is_incomplete delta_of strip_prefix
follows_as_many = refl

push-IsPushed_example : IsPushed recased one_letter 105 (push recased one_letter 105)
push-IsPushed_example = push-IsPushed recased one_letter 105 one_letter-IsDecoded
