-- ===== src/Analyzer/Sax/Tests.antt =====
-- A results file with keys that are passed over.
use pi_poetry.Base.{◌≡◌, refl, true, [], ◌∷◌, bytes}
use pi_poetry.Analyzer.Sax.{null, number_unsigned, string, constructed, run}
use pi_poetry.Analyzer.Sax.Document.{
  Json, plain, array, object, no_items, item, no_members, member, events, phrases,
}
use pi_poetry.Analyzer.Sax.Whole.{run-phrases}

abbrev results : Json
results = object (
    member (bytes "meta") (object (member (bytes "phrases") (array no_items) no_members)) (
      member (bytes "phrases")
        (array (
          item
            (object (
              member (bytes "words")
                (array (
                  item (plain (string (bytes "he")))
                    (item (array no_items) (item (plain (string (bytes "she"))) no_items))))
                (member (bytes "note") (plain null)
                  (member (bytes "start_offset") (plain (number_unsigned 7)) no_members))))
            no_items))
        no_members))

results_test :
    phrases results ≡ record { start_offset = 7; words = bytes "he" ∷ bytes "she" ∷ [] } ∷ []
results_test = refl

run-phrases_example :
    ((run constructed (events results)).1
      ≡ record { start_offset = 7; words = bytes "he" ∷ bytes "she" ∷ [] } ∷ [])
    × ((run constructed (events results)).0.saw_phrases ≡ true)
run-phrases_example = run-phrases results
