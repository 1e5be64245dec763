-- ===== src/Analyzer/Stats/Tests.antt =====
-- The statistics of three phrases, by one accumulator and by two.
use pi_poetry.Base.{ℕ, ◌≡◌, refl, Bytes, bytes, List, [], ◌∷◌, concat}
use pi_poetry.Base.Map.{find, insert}
use pi_poetry.Analyzer.Stats.{
  Phrase, empty, find_word, offer, offer_words, add_phrase, add_phrases, add_counts, offer_all,
  merge, merge_all,
}
use pi_poetry.Analyzer.Stats.Counts.{number_of, counted}
use pi_poetry.Analyzer.Stats.Offsets.{all_places, smallest}
use pi_poetry.Analyzer.Stats.Merge.{part_stats, add_phrases-exact, merge_all-eq-add_phrases}

abbrev no_go : Phrase
no_go = record { start_offset = 10; words = bytes "no" ∷ bytes "go" ∷ [] }

abbrev go : Phrase
go = record { start_offset = 4; words = bytes "go" ∷ [] }

abbrev is_it : Phrase
is_it = record { start_offset = 20; words = bytes "is" ∷ bytes "it" ∷ [] }

abbrev parts : List (List Phrase)
parts = (no_go ∷ []) ∷ (go ∷ is_it ∷ []) ∷ []

merge_all_test : merge_all empty (part_stats parts) ≡ record {
  length_counts = (1, 1) ∷ (2, 2) ∷ [];
  min_offset_per_word =
      (bytes "no", 10) ∷ (bytes "go", 4) ∷ (bytes "is", 20) ∷ (bytes "it", 22) ∷ [];
}
unfolding merge_all merge add_counts offer_all add_phrases add_phrase offer_words offer find insert
merge_all_test = refl

add_phrases-exact_example :
    ((len : ℕ)
      → find len (add_phrases empty (concat parts)).length_counts
        ≡ counted (number_of len (concat parts)))
    × ((w : Bytes)
        → find_word w (add_phrases empty (concat parts)).min_offset_per_word
          ≡ smallest w (all_places (concat parts)))
add_phrases-exact_example = add_phrases-exact (concat parts)

merge_all-eq-add_phrases_example :
    ((len : ℕ)
      → find len (merge_all empty (part_stats parts)).length_counts
        ≡ find len (add_phrases empty (concat parts)).length_counts)
    × ((w : Bytes)
        → find_word w (merge_all empty (part_stats parts)).min_offset_per_word
          ≡ find_word w (add_phrases empty (concat parts)).min_offset_per_word)
merge_all-eq-add_phrases_example = merge_all-eq-add_phrases parts
