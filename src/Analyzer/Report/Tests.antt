-- ===== src/Analyzer/Report/Tests.antt =====
-- The report of three phrases, and of two threads that share them out.
use pi_poetry.Base.{◌≡◌, refl, List, [], ◌∷◌, concat, bytes}
use pi_poetry.Base.Map.{insert, find}
use pi_poetry.Base.Strings.{to_string}
use pi_poetry.Analyzer.Stats.{
  Phrase, empty, add_phrases, find_word, offer, offer_words, add_phrase, merge_all,
}
use pi_poetry.Analyzer.Stats.Merge.{part_stats}
use pi_poetry.Analyzer.Report.{cmp, write_statistics}
use pi_poetry.Analyzer.Report.Same.{write_statistics-merge_all}

abbrev shared_out : List (List Phrase)
shared_out =
    (record { start_offset = 2; words = bytes "he" ∷ [] }
      ∷ record { start_offset = 5; words = bytes "as" ∷ bytes "she" ∷ [] }
      ∷ [])
    ∷ (record { start_offset = 1; words = bytes "he" ∷ [] } ∷ [])
    ∷ []

write_statistics_test :
    write_statistics (add_phrases empty (concat shared_out))
    ≡ bytes
        "Phrase counts by length:\n  length 1: 2\n  length 2: 1\n\nTop 10 longest word occurrences:\n  she at offset 7 (length 3)\n  he at offset 1 (length 2)\n  as at offset 5 (length 2)\n"
unfolding write_statistics add_phrases add_phrase offer_words offer find_word cmp insert find
    to_string
write_statistics_test = refl

write_statistics-merge_all_example :
    write_statistics (merge_all empty (part_stats shared_out))
    ≡ write_statistics (add_phrases empty (concat shared_out))
write_statistics-merge_all_example = write_statistics-merge_all shared_out
