-- ===== src/Pipeline/Serial/Tests.antt =====
-- A serial run on a small file.
use pi_poetry.Base.{◌≡◌, refl, [], ◌∷◌, ◌++◌, bytes, arith, false, true, concat, map}
use pi_poetry.Digits.FileSource.{FileDigitSource, file_source, digits_of, file_source-SourceLaws}
use pi_poetry.Digits.TwoDigitBlock.{two_digit_block, two_digit_block-MapperLaws}
use pi_poetry.Finder.Word.{WordMatch}
use pi_poetry.Finder.Automaton.Scan.{scan}
use pi_poetry.Finder.Automaton.Tests.{small}
use pi_poetry.PhraseScanner.{idle, process_words}
use pi_poetry.Pipeline.Serial.{written, run, emit_sequences}
use pi_poetry.Pipeline.Serial.Loop.{letters_of}
use pi_poetry.Pipeline.Serial.Run.{run-scan, emit_sequences-eq-process_words}

-- The digits of "ushers" and a half group, with a line break among them.
abbrev pi_file : FileDigitSource
pi_file = record { file = bytes "2018\n070417189"; stream = [] }

run-scan_example : run file_source two_digit_block small 20 pi_file 3 ≡ (
    let letters = letters_of two_digit_block (digits_of pi_file.file) in
    written (letters ++ 10 ∷ []) (emit_sequences idle (scan small letters 0)))
run-scan_example =
    run-scan file_source (λ s. digits_of s.stream) two_digit_block small 20 pi_file 3
      file_source-SourceLaws two_digit_block-MapperLaws refl (omega arith) (omega arith)
      (omega arith) (omega arith)

abbrev he : WordMatch
he = record { word = bytes "he"; start = 4; length = 2; consecutive = false }

abbrev she : WordMatch
she = record { word = bytes "she"; start = 6; length = 3; consecutive = true }

emit_sequences-eq-process_words_example :
    emit_sequences idle ((he ∷ she ∷ []) ∷ (he ∷ []) ∷ [])
    ≡ concat (map process_words ((he ∷ she ∷ []) ∷ (he ∷ []) ∷ []))
emit_sequences-eq-process_words_example =
    emit_sequences-eq-process_words ((he ∷ she ∷ []) ∷ (he ∷ []) ∷ []) (omega arith)
