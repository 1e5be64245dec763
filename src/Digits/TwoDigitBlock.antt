-- ===== src/Digits/TwoDigitBlock.antt =====
-- `TwoDigitBlockMapper` of src/digit_mapper/TwoDigitBlockMapper.cpp.
use pi_poetry.Base.{ℕ, ◌+◌, ◌*◌, ◌%◌, ◌≡◌, refl, ap, List, [], ◌∷◌, ◌++◌, Bytes, length, arith}
use pi_poetry.Digits.{DigitMapper, MapperLaws}

abbrev pub letter_of : ℕ → ℕ → ℕ
letter_of high low = b'a' + (high * 10 + low) % 26

unfoldable pub map_pairs : List ℕ → Bytes
map_pairs [] = []
map_pairs (d ∷ []) = []
map_pairs (high ∷ low ∷ digits) = letter_of high low ∷ map_pairs digits

abbrev pub two_digit_block : DigitMapper
two_digit_block = record { map = map_pairs; digits_per_char = 2; required_base = 10 }

map_pairs-append :
    (xs ys : List ℕ) → length xs % 2 ≡ 0 → map_pairs (xs ++ ys) ≡ map_pairs xs ++ map_pairs ys
unfolding map_pairs
map_pairs-append [] ys even = refl
map_pairs-append (x ∷ []) ys even = absurd (omega arith)
map_pairs-append (x ∷ z ∷ xs) ys even =
    ap (◌∷◌ (letter_of x z)) (map_pairs-append xs ys (omega arith))

-- The block mapper keeps the laws of a digit mapper.
pub two_digit_block-MapperLaws : MapperLaws two_digit_block
unfolding map_pairs
two_digit_block-MapperLaws = record { maps_nil = refl; maps_append = map_pairs-append }
