-- ===== src/Analyzer/Files/Tests.antt =====
-- Two parts with phrases of one and of two words.
use pi_poetry.Base.{◌≡◌, refl, arith, some, List, [], ◌∷◌, concat, map, bytes}
use pi_poetry.Base.Map.{insert, find}
use pi_poetry.Base.Strings.{to_string}
use pi_poetry.Analyzer.Stats.{Phrase}
use pi_poetry.Analyzer.Files.{
  directory, write_phrases, name_length, skipped, refused, merge_part_files,
}
use pi_poetry.Analyzer.Files.Merging.{merge_part_files-eq-write_phrases}

abbrev two_parts : List (List Phrase)
two_parts =
    (record { start_offset = 2; words = bytes "he" ∷ [] }
      ∷ record { start_offset = 5; words = bytes "as" ∷ bytes "in" ∷ [] }
      ∷ [])
    ∷ (record { start_offset = 12; words = bytes "we" ∷ [] } ∷ [])
    ∷ []

file_test :
    directory (write_phrases [] (concat two_parts))
    ≡ (bytes "phrases_length_1.txt", bytes "2: he\n12: we\n")
      ∷ (bytes "phrases_length_2.txt", bytes "5: as in\n")
      ∷ []
unfolding write_phrases insert to_string find
file_test = refl

skipped_test : name_length (bytes "statistics.txt") ≡ skipped
skipped_test = refl

refused_test : name_length (bytes "phrases_length_x.txt") ≡ refused
refused_test = refl

merge_part_files-eq-write_phrases_example :
    merge_part_files (map (λ ps. directory (write_phrases [] ps)) two_parts)
    ≡ some (directory (write_phrases [] (concat two_parts)))
merge_part_files-eq-write_phrases_example =
    merge_part_files-eq-write_phrases two_parts (ground arith)
