-- ===== src/Analyzer/Report.antt =====
-- `top_n_longest_words` and `write_statistics` of src/result_analyzer/ResultAnalyzer.cpp.
pub mod Order
pub mod Sorting
pub mod Same
mod Tests
use pi_poetry.Base.{
  ℕ, ◌+◌, Bool, true, false, List, [], ◌∷◌, ◌++◌, ◌==◌, ltb, if◌then◌else◌, length, take, Bytes,
  bytes,
}
use pi_poetry.Base.Map.{Map}
use pi_poetry.Base.Strings.{to_string}
use pi_poetry.Analyzer.Stats.{WordMap, Stats}

abbrev pub WordOccurrence : Type 0
WordOccurrence = Bytes × ℕ

-- `<` of two strings.
abbrev pub bytes_less : Bytes → Bytes → Bool
bytes_less [] [] = false
bytes_less [] (b ∷ bs) = true
bytes_less (a ∷ as') [] = false
bytes_less (a ∷ as') (b ∷ bs) = let rest = bytes_less as' bs in if a == b then rest else ltb a b

-- `cmp`: longer words first, then those with a smaller offset.
unfoldable pub cmp : WordOccurrence → WordOccurrence → Bool
cmp a b =
    if length a.0 == length b.0
    then if a.1 == b.1 then bytes_less a.0 b.0 else ltb a.1 b.1
    else ltb (length b.0) (length a.0)

-- `std::partial_sort` and `resize`: the first `n` entries in the order of `cmp`.
abbrev pub insert_occurrence : WordOccurrence → List WordOccurrence → List WordOccurrence
insert_occurrence a [] = a ∷ []
insert_occurrence a (b ∷ bs) =
    let rest = insert_occurrence a bs in if cmp a b then a ∷ b ∷ bs else b ∷ rest

abbrev pub sort_occurrences : List WordOccurrence → List WordOccurrence
sort_occurrences [] = []
sort_occurrences (a ∷ as') = insert_occurrence a (sort_occurrences as')

unfoldable pub top_n_longest_words : ℕ → Stats → List WordOccurrence
top_n_longest_words n s = take n (sort_occurrences s.min_offset_per_word)

-- The two loops of `write_statistics`.
abbrev pub count_lines : Map ℕ → Bytes
count_lines [] = []
count_lines ((len, cnt) ∷ counts) =
    bytes "  length "
    ++ (to_string len ++ (bytes ": " ++ (to_string cnt ++ (10 ∷ count_lines counts))))

abbrev pub word_lines : List WordOccurrence → Bytes
word_lines [] = []
word_lines ((word, offset) ∷ words) =
    bytes "  "
    ++ (word
        ++ (bytes " at offset "
            ++ (to_string offset
                ++ (bytes " (length "
                    ++ (to_string (length word) ++ (bytes ")\n" ++ word_lines words))))))

unfoldable pub write_statistics : Stats → Bytes
unfolding top_n_longest_words
write_statistics s =
    bytes "Phrase counts by length:\n"
    ++ (count_lines s.length_counts
        ++ (10
            ∷ (bytes "Top 10 longest word occurrences:\n"
                ++ word_lines (top_n_longest_words 10 s))))
