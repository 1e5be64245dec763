-- ===== src/Pipeline/Serial.antt =====
-- `Pipeline::run` of src/pipeline/Pipeline.cpp: the serial run, over any digit source and mapper. What
-- it writes is its result: the letter sequence and the phrases of results.json.
pub mod Loop
pub mod Run
mod Tests
use pi_poetry.Base.{
  ℕ, zero, suc, ◌+◌, ◌-◌, ◌*◌, ◌/◌, ◌%◌, ◌^◌, Bool, true, false, Option, none, some, List, [], ◌∷◌,
  ◌++◌, ◌==◌, if◌then◌else◌, length, take, Bytes, add64,
}
use pi_poetry.Digits.{DigitSource, DigitMapper}
use pi_poetry.Finder.Word.{WordMatch}
use pi_poetry.Finder.Policy.{Raw, apply_policy_cb}
use pi_poetry.Finder.Automaton.{AhoCorasick}
use pi_poetry.Finder.Automaton.Scan.{scan_chunk}
use pi_poetry.PhraseScanner.{PhraseMatch, Scanner, idle, process_words_streaming, flush_streaming}

-- The chunk size snapped up to a multiple of `digits_per_char`.
unfoldable pub snapped : ℕ → ℕ → ℕ
snapped chunk_size dpc =
    if chunk_size % dpc == 0 then chunk_size else ((chunk_size / dpc + 1) * dpc) % 2 ^ 64

abbrev pub usable : ℕ → ℕ → ℕ
usable dpc n = (n / dpc) * dpc

abbrev pub then_more : Bytes → Raw → Option (Bytes × Raw) → Option (Bytes × Raw)
then_more chars raw none = none
then_more chars raw (some (letters, more)) = some (chars ++ letters, raw ++ more)

-- The loop that reads, maps and scans chunk by chunk: the letters and the raw matches, or `none` when
-- the fuel does not suffice.
unfoldable pub chunk_loop :
    {S : Type 0}
    → DigitSource S
    → DigitMapper
    → AhoCorasick
    → ℕ
    → ℕ
    → S
    → ℕ
    → ℕ
    → Option (Bytes × Raw)
chunk_loop source mapper ac chunk_size zero s global_char_offset ac_state = none
chunk_loop source mapper ac chunk_size (suc fuel) s global_char_offset ac_state =
    let got = source.next_chunk s chunk_size in
    let n = usable mapper.digits_per_char (length got.0) in
    let chars = mapper.map (take n got.0) in
    let found = scan_chunk ac chars global_char_offset ac_state in
    let rest =
      chunk_loop source mapper ac chunk_size fuel got.1 (add64 global_char_offset (length chars))
        found.1 in
    if length got.0 == 0
    then some ([], [])
    else if n == 0
    then some ([], [])
    else then_more chars found.0 rest

-- `emit_sequence` for each chain, with the scanner's state carried on.
unfoldable pub emit_sequences : Scanner → List (List WordMatch) → List PhraseMatch
emit_sequences s [] = []
emit_sequences s (chain ∷ chains) =
    let fed = process_words_streaming s chain in
    let flushed = flush_streaming fed.0 in fed.1 ++ flushed.1 ++ emit_sequences flushed.0 chains

pub data Outcome : Type 0 where
  base_mismatch : Outcome
  out_of_fuel : Outcome
  written : (letters : Bytes) → (phrases : List PhraseMatch) → Outcome

abbrev pub phrases_of : AhoCorasick → Raw → List PhraseMatch
phrases_of ac raw = emit_sequences idle (apply_policy_cb ac.policy ac.min_phrase_length raw 0)

abbrev pub outcome_of : AhoCorasick → Option (Bytes × Raw) → Outcome
outcome_of ac none = out_of_fuel
outcome_of ac (some (letters, raw)) = written (letters ++ 10 ∷ []) (phrases_of ac raw)

-- `run`, with `write_letter_sequence` set.
unfoldable pub run : {S : Type 0} → DigitSource S → DigitMapper → AhoCorasick → ℕ → S → ℕ → Outcome
unfolding chunk_loop snapped emit_sequences
run source mapper ac fuel s chunk_size =
    let chunk = snapped chunk_size mapper.digits_per_char in
    if source.base == mapper.required_base
    then outcome_of ac (chunk_loop source mapper ac chunk fuel (source.reset s) 0 0)
    else base_mismatch
