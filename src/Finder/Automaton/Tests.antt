-- ===== src/Finder/Automaton/Tests.antt =====
-- The automaton on a small dictionary.
use pi_poetry.Base.{◌↔◌, Has, map, ◌≡◌, refl, [], ◌∷◌, ◌++◌, bytes, add64}
use pi_poetry.Finder.Automaton.{
  AhoCorasick, constructed, insert_word, load_dictionary, strip_cr, set_min_word_length,
}
use pi_poetry.Finder.Automaton.Trie.Words.{Accepted}
use pi_poetry.Finder.Automaton.Trie.Walk.{Found, load_dictionary-Found}
use pi_poetry.Finder.Automaton.Build.{visit, build}
use pi_poetry.Finder.Automaton.Scan.{scan_chunk}
use pi_poetry.Finder.Automaton.Scan.Chunks.{scan_chunk-append}

abbrev pub small : AhoCorasick
unfolding build load_dictionary
small =
    build
      (load_dictionary constructed (bytes "he" ∷ bytes "she" ∷ bytes "Hers" ∷ bytes "hers\r" ∷ []))

-- Matches at each position come longest first.
small-test :
    scan_chunk small (bytes "ushers") 0 0
    ≡ ((1, bytes "she") ∷ (2, bytes "he") ∷ (2, bytes "hers") ∷ [], 7)
unfolding scan_chunk small insert_word visit
small-test = refl

scan_chunk-append_example : scan_chunk small (bytes "us" ++ bytes "hers") 5 0 ≡ (
    let front = scan_chunk small (bytes "us") 5 0 in
    let back = scan_chunk small (bytes "hers") (add64 5 2) front.1 in (front.0 ++ back.0, back.1))
scan_chunk-append_example = scan_chunk-append small (bytes "us") (bytes "hers") 5 0

load_dictionary-Found_example :
    Found
      (load_dictionary
        (set_min_word_length constructed 3)
        (bytes "hero" ∷ bytes "hers\r" ∷ [])).nodes
      (bytes "hero")
    ↔ (Accepted 3 (bytes "hero")
        × Has (bytes "hero") (map strip_cr (bytes "hero" ∷ bytes "hers\r" ∷ [])))
load_dictionary-Found_example =
    load_dictionary-Found 3 (bytes "hero" ∷ bytes "hers\r" ∷ []) (bytes "hero")
