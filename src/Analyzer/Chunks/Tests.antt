-- ===== src/Analyzer/Chunks/Tests.antt =====
-- A file with three objects, one of which has brackets in a string.
use pi_poetry.Base.{◌≡◌, refl, arith, true, false, List, [], ◌∷◌, some, Bytes, bytes}
use pi_poetry.Analyzer.Chunks.{array_start, find_phrase_chunk_boundaries}
use pi_poetry.Analyzer.Chunks.Texts.{stop, other, quoted, nested, plain, Element, spans}
use pi_poetry.Analyzer.Chunks.Boundaries.{Covers, find_phrase_chunk_boundaries-Covers}

abbrev three_objects : Bytes
three_objects = bytes "{\"phrases\": [{\"}\":1},{},{[]} ]}"

abbrev objects : List Element
objects =
    record {
      gap = [];
      square = false;
      inside = quoted (plain b'}' ∷ []) (other b':' (other b'1' stop));
    }
    ∷ record { gap = bytes ","; square = false; inside = stop }
    ∷ record { gap = bytes ","; square = false; inside = nested true stop stop }
    ∷ []

two_ranges_test : find_phrase_chunk_boundaries three_objects 2 ≡ (13, 23) ∷ (24, 28) ∷ []
unfolding find_phrase_chunk_boundaries
two_ranges_test = refl

-- Both targets fall into the first object: two ranges for three threads and three objects.
few_ranges_test :
    find_phrase_chunk_boundaries (bytes "{\"phrases\":[{1234567890123456789},{},{}]}") 3
    ≡ (12, 33) ∷ (34, 39) ∷ []
unfolding find_phrase_chunk_boundaries
few_ranges_test = refl

no_array_test : find_phrase_chunk_boundaries (bytes "{\"words\":[]}") 2 ≡ []
unfolding find_phrase_chunk_boundaries
no_array_test = refl

array_start_test : array_start three_objects ≡ some 13
unfolding array_start
array_start_test = refl

find_phrase_chunk_boundaries-Covers_example :
    Covers 2 (spans 13 objects) (find_phrase_chunk_boundaries three_objects 2)
find_phrase_chunk_boundaries-Covers_example =
    find_phrase_chunk_boundaries-Covers three_objects 2 13 objects (bytes " ") (bytes "}")
      array_start_test refl (ground arith) (ground arith)
