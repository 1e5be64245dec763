-- ===== src/PhraseScanner.antt =====
-- src/phrase_scanner/HumanReviewScanner.cpp and the headers of include/phrase_scanner. The batch
-- scanner `process_words`, and the streaming pair that keeps the phrase in progress.
pub mod Sort
pub mod Runs
pub mod Streaming
mod Tests
use pi_poetry.Base.{
  ℕ, zero, suc, ◌+◌, Bool, true, false, Option, none, some, List, [], ◌∷◌, ◌++◌, map, ◌==◌, ltb,
  if◌then◌else◌, length, add64, low32,
}
use pi_poetry.Finder.Word.{WordMatch}
use pi_poetry.Base.Text.{Bytes}

-- `PhraseMatch`.
pub record PhraseMatch : Type 0 where
  pub start_offset : ℕ
  pub words : List Bytes

-- `start + length`, in `std::size_t`.
abbrev pub word_end : WordMatch → ℕ
word_end w = add64 w.start w.length

-- `int gap = static_cast<int>(start) - static_cast<int>(prev_end)`, tested against 0. The casts keep
-- the low 32 bits, so the gap is 0 exactly when those agree.
abbrev pub gap_is_zero : ℕ → ℕ → Bool
gap_is_zero start prev_end = low32 start == low32 prev_end

-- `std::stable_sort` by `start`: a word goes before the later words that start where it does.
unfoldable pub insert_by_start : WordMatch → List WordMatch → List WordMatch
insert_by_start w [] = w ∷ []
insert_by_start w (v ∷ vs) =
    let rest = insert_by_start w vs in if ltb v.start w.start then v ∷ rest else w ∷ v ∷ vs

unfoldable pub sort_by_start : List WordMatch → List WordMatch
sort_by_start [] = []
sort_by_start (w ∷ ws) = insert_by_start w (sort_by_start ws)

-- The inner loop of `process_words`: the words that extend the phrase, and the words left over.
unfoldable pub extend : ℕ → List WordMatch → List Bytes × List WordMatch
extend prev_end [] = ([], [])
extend prev_end (w ∷ ws) =
    let rest = extend (word_end w) ws in
    if gap_is_zero w.start prev_end then (w.word ∷ rest.0, rest.1) else ([], w ∷ ws)

-- The outer loop. A round takes at least one word, so the number of words is enough fuel.
unfoldable pub phrase_loop : ℕ → List WordMatch → List PhraseMatch
phrase_loop zero ws = []
phrase_loop (suc fuel) [] = []
phrase_loop (suc fuel) (w ∷ ws) =
    let found = extend (word_end w) ws in
    record { start_offset = w.start; words = w.word ∷ found.0 } ∷ phrase_loop fuel found.1

-- `process_words`.
unfoldable pub process_words : List WordMatch → List PhraseMatch
process_words word_stream =
    let sorted = sort_by_start word_stream in phrase_loop (length sorted) sorted

-- The members `pending_phrase_` and `pending_end_`.
pub record Scanner : Type 0 where
  pub pending_phrase : Option PhraseMatch
  pub pending_end : ℕ

abbrev pub idle : Scanner
idle = record { pending_phrase = none; pending_end = 0 }

abbrev start_phrase : WordMatch → Scanner
start_phrase w = record {
  pending_phrase = some (record { start_offset = w.start; words = w.word ∷ [] });
  pending_end = word_end w;
}

-- One word of `process_words_streaming`: the new state, and the phrases handed to `on_phrase`.
abbrev pub feed_pending : Option PhraseMatch → ℕ → WordMatch → Scanner × List PhraseMatch
feed_pending none pending_end w = (start_phrase w, [])
feed_pending (some p) pending_end w =
    if gap_is_zero w.start pending_end
    then (
      record {
        pending_phrase =
            some (record { start_offset = p.start_offset; words = p.words ++ w.word ∷ [] });
        pending_end = word_end w;
      },
      [],
    )
    else (start_phrase w, p ∷ [])

unfoldable pub feed : Scanner → WordMatch → Scanner × List PhraseMatch
feed s w = feed_pending s.pending_phrase s.pending_end w

unfoldable pub process_words_streaming : Scanner → List WordMatch → Scanner × List PhraseMatch
unfolding feed
process_words_streaming s [] = (s, [])
process_words_streaming s (w ∷ batch) =
    let step = feed s w in
    let rest = process_words_streaming step.0 batch in (rest.0, step.1 ++ rest.1)

unfoldable pub flush_streaming : Scanner → Scanner × List PhraseMatch
flush_streaming s = elim s.pending_phrase [ none ↦ (s, []) | some p ↦ (idle, p ∷ []) ]
