-- ===== src/Pipeline/Workers.antt =====
-- The stage workers `DigitMapperWorker` and `WordFinderWorker` of src/pipeline/Pipeline.cpp, with their
-- packages of include/pipeline/WorkPackage.hpp: `process` as the list of the packages it emits.
pub mod Numbering
mod Tests
use pi_poetry.Base.{
  ℕ, zero, suc, ◌+◌, ◌*◌, ◌/◌, Bool, true, false, List, [], ◌∷◌, ◌++◌, leb, ◌==◌, if◌then◌else◌,
  length, take, Bytes, add64,
}
use pi_poetry.Digits.{DigitMapper}
use pi_poetry.Finder.Word.{WordMatch}
use pi_poetry.Finder.Policy.{Raw, apply_policy_cb}
use pi_poetry.Finder.Automaton.{AhoCorasick}
use pi_poetry.Finder.Automaton.Scan.{scan_chunk}
use pi_poetry.Pipeline.DigitDispatcher.{DigitPackage}
use pi_poetry.Pipeline.Serial.{usable}

pub record LetterPackage : Type 0 where
  pub seq_id : ℕ
  pub global_char_offset : ℕ
  pub num_real_chars : ℕ
  pub chars : Bytes

pub record ComboPackage : Type 0 where
  pub chunk_id : ℕ
  pub intra_chunk_seq_id : ℕ
  pub final_package_in_chunk : Bool
  pub chain : List WordMatch
  pub letter_chars : Bytes
  pub num_real_letter_chars : ℕ

-- `DigitMapperWorker::process`.
unfoldable pub map_digits : DigitMapper → DigitPackage → LetterPackage
map_digits mapper pkg =
    let dpc = mapper.digits_per_char in
    let n = usable dpc (length pkg.digits) in
    record {
      seq_id = pkg.seq_id;
      global_char_offset = pkg.global_digit_offset / dpc;
      num_real_chars = pkg.num_real_digits / dpc;
      chars = if n == 0 then [] else mapper.map (take n pkg.digits);
    }

-- The matches that start in the real zone.
abbrev pub starting_before : ℕ → Raw → Raw
starting_before end [] = []
starting_before end ((start, word) ∷ raw) =
    let rest = starting_before end raw in if leb end start then rest else (start, word) ∷ rest

-- The callback, with `intra` as the number of the next package.
abbrev pub numbered : ℕ → ℕ → List (List WordMatch) → List ComboPackage
numbered chunk_id intra [] = []
numbered chunk_id intra (chain ∷ chains) =
    record {
      chunk_id = chunk_id;
      intra_chunk_seq_id = intra;
      final_package_in_chunk = false;
      chain = chain;
      letter_chars = [];
      num_real_letter_chars = 0;
    }
    ∷ numbered chunk_id (suc intra) chains

-- The last package is marked, and carries the letters if they are written.
abbrev pub marked : Bool → LetterPackage → ComboPackage → ComboPackage
marked write_letters pkg cp = record cp {
  final_package_in_chunk = true;
  letter_chars = if write_letters then pkg.chars else cp.letter_chars;
  num_real_letter_chars = if write_letters then pkg.num_real_chars else cp.num_real_letter_chars;
}

abbrev pub mark_back : Bool → LetterPackage → List ComboPackage → List ComboPackage
mark_back write_letters pkg [] = []
mark_back write_letters pkg (cp ∷ []) = marked write_letters pkg cp ∷ []
mark_back write_letters pkg (cp ∷ next ∷ pending) =
    cp ∷ mark_back write_letters pkg (next ∷ pending)

-- The chains of a package; without any, one package with an empty chain stands for the chunk.
abbrev pub or_empty : List (List WordMatch) → List (List WordMatch)
or_empty [] = [] ∷ []
or_empty (chain ∷ chains) = chain ∷ chains

abbrev pub chains_of : AhoCorasick → LetterPackage → List (List WordMatch)
chains_of ac pkg =
    let real_char_end = add64 pkg.global_char_offset pkg.num_real_chars in
    let raw = (scan_chunk ac pkg.chars pkg.global_char_offset 0).0 in
    apply_policy_cb ac.policy ac.min_phrase_length (starting_before real_char_end raw) 0

-- `WordFinderWorker::process`.
unfoldable pub find_words : AhoCorasick → Bool → LetterPackage → List ComboPackage
find_words ac write_letters pkg =
    mark_back write_letters pkg (numbered pkg.seq_id 0 (or_empty (chains_of ac pkg)))
