-- ===== src/Decoder/Push.antt =====
-- The decoder and its `push`. A text is the list of its characters; the tokenizer's `decode`, which is a
-- third party's, is a parameter, and a failure of it leaves the new token in the list.
use mo_earc.Common.{
  ℕ, Bool, false, ◌==◌, if◌then◌else◌, Option, none, some, List, [], ◌∷◌, ◌++◌, length, drop,
}
use mo_earc.Common.Results.{Result, ok, err}

pub record IncrementalDecoder : Type 0 where
  pub ids : List ℕ
  pub emitted : List ℕ

abbrev pub new_decoder : IncrementalDecoder
new_decoder = record { ids = []; emitted = [] }

-- `ends_with('\u{FFFD}')`
unfoldable pub is_incomplete : List ℕ → Bool
is_incomplete [] = false
is_incomplete (c ∷ cs) = elim cs [ [] ↦ c == 0xFFFD | ◌∷◌ d ds ↦ is_incomplete cs ]

unfoldable pub strip_prefix : List ℕ → List ℕ → Option (List ℕ)
strip_prefix [] text = some text
strip_prefix (p ∷ ps) [] = none
strip_prefix (p ∷ ps) (c ∷ cs) = let rest = strip_prefix ps cs in if p == c then rest else none

-- `unwrap_or_else(…)`
unfoldable pub delta_of : List ℕ → List ℕ → List ℕ
delta_of emitted full = elim (strip_prefix emitted full) [
  | some rest ↦ rest
  | none ↦ drop (length emitted) full
]

module _ {E : Type 0} (decode : List ℕ → Result E (List ℕ)) where
  unfoldable pub push : IncrementalDecoder → ℕ → IncrementalDecoder × Result E (List ℕ)
  push dec id =
      let ids = dec.ids ++ (id ∷ []) in
      elim (decode ids) [
        | err e ↦ (record dec { ids = ids }, err e)
        | ok full ↦
            if is_incomplete full
            then (record dec { ids = ids }, ok [])
            else (record { ids = ids; emitted = full }, ok (delta_of dec.emitted full))
      ]
