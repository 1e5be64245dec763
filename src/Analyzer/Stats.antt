-- ===== src/Analyzer/Stats.antt =====
-- `PhraseStatsAccumulator` of src/result_analyzer/ResultAnalyzer.cpp. The unordered map of the
-- smallest offsets is the list of its entries; its order is not observed.
pub mod Counts
pub mod Offsets
pub mod Merge
mod Tests
use mathlib.Core.Option
use pi_poetry.Base.{
  ℕ, ◌+◌, Bytes, bytes_eq, Option, none, some, List, [], ◌∷◌, ltb, if◌then◌else◌, length, add64,
}
use pi_poetry.Base.Map.{Map, find, insert}

-- What `add_phrase` is given: `start_offset` and `words`.
pub record Phrase : Type 0 where
  pub start_offset : ℕ
  pub words : List Bytes

abbrev pub WordMap : Type 0
WordMap = List (Bytes × ℕ)

pub record Stats : Type 0 where
  pub length_counts : Map ℕ
  pub min_offset_per_word : WordMap

abbrev pub empty : Stats
empty = record { length_counts = []; min_offset_per_word = [] }

-- `length_counts_[len]`, which is 0 for a new key.
abbrev pub count_at : ℕ → Map ℕ → ℕ
count_at len m = Option.get_or (find len m) 0

unfoldable pub find_word : Bytes → WordMap → Option ℕ
find_word w [] = none
find_word w ((v, offset) ∷ m) = if bytes_eq v w then some offset else find_word w m

-- Emplace the offset of a new word, or lower that of a known one.
unfoldable pub offer : Bytes → ℕ → WordMap → WordMap
offer w offset [] = (w, offset) ∷ []
offer w offset ((v, old) ∷ m) =
    if bytes_eq v w
    then (v, if ltb offset old then offset else old) ∷ m
    else (v, old) ∷ offer w offset m

-- The loop of `add_phrase` over the words.
unfoldable pub offer_words : ℕ → List Bytes → WordMap → WordMap
unfolding offer
offer_words offset [] m = m
offer_words offset (w ∷ words) m = offer_words (add64 offset (length w)) words (offer w offset m)

unfoldable pub add_phrase : Stats → Phrase → Stats
add_phrase s p =
    let len = length p.words in
    record {
      length_counts = insert len (add64 (count_at len s.length_counts) 1) s.length_counts;
      min_offset_per_word = offer_words p.start_offset p.words s.min_offset_per_word;
    }

unfoldable pub add_phrases : Stats → List Phrase → Stats
add_phrases s [] = s
add_phrases s (p ∷ ps) = add_phrases (add_phrase s p) ps

-- The two loops of `merge`.
unfoldable pub add_counts : Map ℕ → Map ℕ → Map ℕ
add_counts m [] = m
add_counts m ((len, cnt) ∷ other) = add_counts (insert len (add64 (count_at len m) cnt) m) other

unfoldable pub offer_all : WordMap → WordMap → WordMap
offer_all m [] = m
offer_all m ((w, offset) ∷ other) = offer_all (offer w offset m) other

unfoldable pub merge : Stats → Stats → Stats
merge s other = record {
  length_counts = add_counts s.length_counts other.length_counts;
  min_offset_per_word = offer_all s.min_offset_per_word other.min_offset_per_word;
}

-- `for (const auto& s : part_stats) merged.merge(s)`.
unfoldable pub merge_all : Stats → List Stats → Stats
merge_all merged [] = merged
merge_all merged (s ∷ part_stats) = merge_all (merge merged s) part_stats
