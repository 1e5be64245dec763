-- ===== src/Digits/Tests.antt =====
-- The digit source and the mapper on concrete inputs.
use pi_poetry.Base.{◌≡◌, refl, [], ◌∷◌, bytes, take, drop}
use pi_poetry.Digits.FileSource.{
  FileDigitSource, next_chunk, read_at, digits_of, next_chunk-eq-take, read_at-eq-next_chunk,
}
use pi_poetry.Digits.TwoDigitBlock.{map_pairs}

abbrev broken_file : FileDigitSource
broken_file = record { file = bytes "3.14\n15"; stream = bytes "3.14\n15" }

abbrev digit_file : FileDigitSource
digit_file = record { file = bytes "31415"; stream = bytes "31415" }

next_chunk-eq-take_example :
    ((next_chunk broken_file 4).0 ≡ take 4 (3 ∷ 1 ∷ 4 ∷ 1 ∷ 5 ∷ []))
    × (digits_of (next_chunk broken_file 4).1.stream ≡ drop 4 (3 ∷ 1 ∷ 4 ∷ 1 ∷ 5 ∷ []))
next_chunk-eq-take_example = next_chunk-eq-take broken_file 4

read_at-eq-next_chunk_example :
    read_at digit_file 2 2 ≡ (next_chunk (record digit_file { stream = bytes "415" }) 2).0
read_at-eq-next_chunk_example =
    read_at-eq-next_chunk digit_file 2 2 (refl, (refl, (refl, (refl, (refl, tt)))))

-- A line break at the end of the file is a digit for `read_at`, and no digit for `next_chunk`.
read_at-newline : read_at broken_file 3 2 ≡ 4 ∷ 218 ∷ []
unfolding read_at
read_at-newline = refl

map_pairs-test : map_pairs (3 ∷ 1 ∷ 4 ∷ 1 ∷ 5 ∷ []) ≡ bytes "fp"
unfolding map_pairs
map_pairs-test = refl
