-- ===== src/PhraseScanner/Tests.antt =====
-- The scanner on a few words.
use mathlib.Core.List.{Perm}
use pi_poetry.Base.{ℕ, ◌+◌, ◌^◌, ◌≡◌, refl, false, List, [], ◌∷◌, arith}
use pi_poetry.Finder.Word.{WordMatch}
use pi_poetry.Base.Text.{Bytes}
use pi_poetry.PhraseScanner.{
  idle, sort_by_start, insert_by_start, extend, phrase_loop, process_words,
}
use pi_poetry.PhraseScanner.Sort.{StartsFrom}
use pi_poetry.PhraseScanner.Runs.{Cuts, process_words-Cuts, process_words-far}
use pi_poetry.PhraseScanner.Streaming.{stream_batches, stream_batches-eq-process_words}

abbrev match_at : Bytes → ℕ → ℕ → WordMatch
match_at word start length = record {
  word = word;
  start = start;
  length = length;
  consecutive = false;
}

abbrev it : WordMatch
it = match_at (105 ∷ 116 ∷ []) 4 2

abbrev at : WordMatch
at = match_at (97 ∷ 116 ∷ []) 6 2

abbrev far : WordMatch
far = match_at (97 ∷ []) (2 ^ 32 + 6) 1

process_words_test :
    process_words (far ∷ at ∷ it ∷ [])
    ≡ record { start_offset = 4; words = it.word ∷ at.word ∷ [] }
      ∷ record { start_offset = 2 ^ 32 + 6; words = far.word ∷ [] }
      ∷ []
unfolding process_words sort_by_start insert_by_start phrase_loop extend
process_words_test = refl

process_words-Cuts_example :
    (sorted : List WordMatch) × Perm sorted (at ∷ it ∷ [])
    × StartsFrom 0 sorted
    × Cuts sorted (process_words (at ∷ it ∷ []))
process_words-Cuts_example = process_words-Cuts (at ∷ it ∷ []) (omega arith)

process_words-far_example :
    process_words (it ∷ far ∷ [])
    ≡ record { start_offset = 4; words = it.word ∷ far.word ∷ [] } ∷ []
process_words-far_example = process_words-far it far (omega arith) (omega arith)

-- A phrase that goes on over the border of two batches.
stream_batches-eq-process_words_example :
    stream_batches idle ((it ∷ []) ∷ [] ∷ (at ∷ far ∷ []) ∷ []) ≡ process_words (it ∷ at ∷ far ∷ [])
stream_batches-eq-process_words_example =
    stream_batches-eq-process_words ((it ∷ []) ∷ [] ∷ (at ∷ far ∷ []) ∷ []) (omega arith)
