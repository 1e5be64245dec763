-- ===== src/GenMapping/Tests.antt =====
-- The generator on a small table.
use pi_poetry.Base.{ℕ, ◌+◌, ◌≡◌, refl, List, [], ◌∷◌, ◌++◌, arith, bytes}
use pi_poetry.Base.Map.{Map, find, insert}
use pi_poetry.Base.Result.{ok}
use pi_poetry.Base.Strings.{to_string}
use pi_poetry.Digits.MappingFile.{load, add_characters}
use pi_poetry.GenMapping.{
  count_of, count_from, count_char_frequencies, expanded, assign_combos, shuffle_assignments,
  write_mapping,
}
use pi_poetry.GenMapping.Frequencies.{count, count_of-count_char_frequencies}
use pi_poetry.GenMapping.RoundTrip.{load-write_mapping}

abbrev ten_slots : Map ℕ
ten_slots = (b'a', 4) ∷ (b'e', 5) ∷ (b'z', 1) ∷ []

abbrev turned : List ℕ → List ℕ
turned [] = []
turned (c ∷ cs) = cs ++ (c ∷ [])

load-write_mapping_example :
    load (write_mapping (shuffle_assignments turned (assign_combos ten_slots 1)) 1)
    ≡ ok (record {
      digits_per_char = 1;
      base = 10;
      table = turned (expanded ten_slots);
      alphabet = add_characters [] (turned (expanded ten_slots));
    })
load-write_mapping_example =
    load-write_mapping turned ten_slots 0 refl refl (omega arith) (ground arith)

count_char_frequencies_test : count_char_frequencies (bytes "Hi, hi!") ≡ (b'h', 2) ∷ (b'i', 2) ∷ []
unfolding count_char_frequencies count_from find insert
count_char_frequencies_test = refl

write_mapping_test :
    write_mapping (assign_combos ((b'x', 2) ∷ []) 2) 2
    ≡ bytes "digits_per_char=2\nbase=10\n00 x\n01 x\n"
unfolding write_mapping assign_combos to_string
write_mapping_test = refl

count_of-count_char_frequencies_example :
    count_of b'z' (count_char_frequencies (bytes "Zig, zag!"))
    ≡ count b'z' (bytes "Zig, zag!") + count b'Z' (bytes "Zig, zag!")
count_of-count_char_frequencies_example = count_of-count_char_frequencies b'z' (bytes "Zig, zag!")
