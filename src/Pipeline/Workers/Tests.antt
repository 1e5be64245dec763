-- ===== src/Pipeline/Workers/Tests.antt =====
-- A chunk of letters with two chains.
use pi_poetry.Base.{ℕ, suc, ◌<◌, ◌≡◌, true, length, get_elem?, some, ◌==◌, map, bytes}
use pi_poetry.Finder.Automaton.Tests.{small}
use pi_poetry.Pipeline.Workers.{LetterPackage, ComboPackage, or_empty, chains_of, find_words}
use pi_poetry.Pipeline.Workers.Numbering.{find_words-numbered}

abbrev ushers : LetterPackage
ushers = record {
  seq_id = 4;
  global_char_offset = 40;
  num_real_chars = 10;
  chars = bytes "ushersxxhexx";
}

find_words-numbered_example :
    (let out = find_words small true ushers in
      (0 < length out)
      × (map (λ p. p.chain) out ≡ or_empty (chains_of small ushers))
      × ((i : ℕ) (p : ComboPackage)
          → get_elem? out i ≡ some p
          → (p.chunk_id ≡ 4)
            × (p.intra_chunk_seq_id ≡ i)
            × (p.final_package_in_chunk ≡ (suc i == length out))))
find_words-numbered_example = find_words-numbered small true ushers
