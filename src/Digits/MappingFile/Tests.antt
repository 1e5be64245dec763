-- ===== src/Digits/MappingFile/Tests.antt =====
-- A mapping file of two combos, and its errors.
use pi_poetry.Base.{◌≡◌, refl, [], ◌∷◌, Bytes, bytes, arith}
use pi_poetry.Base.Result.{ok, err}
use pi_poetry.Digits.TwoDigitBlock.{two_digit_block}
use pi_poetry.Digits.MappingFile.{
  MappingFileMapper, load, mapping_file, duplicate, missing_entry, missing_base, overflow,
  invalid_digit, bad_number,
}
use pi_poetry.Digits.MappingFile.Letters.{Letters, map-Letters}
use pi_poetry.Digits.MappingFile.Loaded.{Describes, load-Describes}
use pi_poetry.Digits.MappingFile.Shipped.{shipped, shipped-eq-two_digit_block}

abbrev binary_file : Bytes
binary_file = bytes "# bits\nbase = 2\n digits_per_char=1\r\n1 o\n0 z rest\n"

abbrev binary : MappingFileMapper
binary = record { digits_per_char = 1; base = 2; table = bytes "zo"; alphabet = bytes "zo" }

load_test : load binary_file ≡ ok binary
unfolding load
load_test = refl

load-Describes_example : Describes binary_file binary
load-Describes_example = load-Describes binary_file binary load_test

map-Letters_example : Letters binary (1 ∷ 0 ∷ 0 ∷ []) ((mapping_file binary).map (1 ∷ 0 ∷ 0 ∷ []))
map-Letters_example = map-Letters binary_file binary load_test (1 ∷ 0 ∷ 0 ∷ []) (omega arith)

shipped-eq-two_digit_block_example :
    (m : MappingFileMapper) × (load shipped ≡ ok m)
    × ((mapping_file m).map (3 ∷ 1 ∷ 4 ∷ []) ≡ two_digit_block.map (3 ∷ 1 ∷ 4 ∷ []))
shipped-eq-two_digit_block_example = shipped-eq-two_digit_block (3 ∷ 1 ∷ 4 ∷ []) (omega arith)

duplicate_test :
    load (bytes "base=2\ndigits_per_char=1\n0 a\n0 b\n1 c") ≡ err (duplicate (bytes "0"))
unfolding load
duplicate_test = refl

missing_entry_test :
    load (bytes "base=3\ndigits_per_char=2\n00 a") ≡ err (missing_entry (bytes "01"))
unfolding load
missing_entry_test = refl

missing_base_test : load (bytes "digits_per_char=1\n0 a") ≡ err missing_base
unfolding load
missing_base_test = refl

overflow_test : load (bytes "base=10\ndigits_per_char=10\n") ≡ err overflow
unfolding load
overflow_test = refl

invalid_digit_test :
    load (bytes "base=2\ndigits_per_char=1\n2 a\n") ≡ err (invalid_digit b'2' (bytes "2 a"))
unfolding load
invalid_digit_test = refl

bad_number_test : load (bytes "base=ten\n") ≡ err bad_number
unfolding load
bad_number_test = refl
