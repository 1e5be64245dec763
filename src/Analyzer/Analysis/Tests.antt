-- ===== src/Analyzer/Analysis/Tests.antt =====
-- A file with two phrases, and a parser that reads it and its two objects.
use pi_poetry.Base.{
  ◌≡◌, refl, ap, subst, true, false, none, some, List, [], ◌∷◌, ◌++◌, arith, length, if◌then◌else◌,
  Bytes, bytes, bytes_eq,
}
use pi_poetry.Base.Lists.{length-append}
use pi_poetry.Base.Result.{ok}
use pi_poetry.Analyzer.Sax.{number_unsigned, string}
use pi_poetry.Analyzer.Sax.Document.{
  Json, array, object, no_items, item, no_members, member, events, phrases,
}
use pi_poetry.Analyzer.Chunks.{array_start, find_phrase_chunk_boundaries}
use pi_poetry.Analyzer.Chunks.Texts.{Element, Text, stop, other, quoted, nested, StringChar}
use pi_poetry.Analyzer.Stream.{phrases_prefix, phrases_suffix}
use pi_poetry.Analyzer.Analysis.{Parser, analyze}
use pi_poetry.Analyzer.Analysis.Slices.{Slice, items_in, slice_text}
use pi_poetry.Analyzer.Analysis.Parsing.{Valued, document, ReadsSlices, report_of}
use pi_poetry.Analyzer.Analysis.Threads.{Readable, analyze-ok}

abbrev letters : Bytes → List StringChar
letters [] = []
letters (c ∷ cs) = StringChar.plain c ∷ letters cs

abbrev offset_text : Text → Text
offset_text rest = quoted (letters (bytes "start_offset")) (other b':' (other b'3' rest))

abbrev words_inside : Text
words_inside =
    quoted (letters (bytes "words"))
      (other b':' (nested true (quoted (letters (bytes "he")) stop) stop))

-- {"start_offset":3} and {"words":["he"]}.
abbrev first : Element × Json
first = (
  record { gap = []; square = false; inside = offset_text stop },
  object (member (bytes "start_offset") (Json.plain (number_unsigned 3)) no_members),
)

abbrev second : Element × Json
second = (
  record { gap = bytes ","; square = false; inside = words_inside },
  object (
      member (bytes "words") (array (item (Json.plain (string (bytes "he"))) no_items)) no_members),
)

abbrev both : Valued
both = first ∷ second ∷ []

abbrev two_phrases : Bytes
two_phrases = bytes "{\"phrases\":[{\"start_offset\":3},{\"words\":[\"he\"]}]}"

abbrev two_parser : Parser
two_parser text =
    if bytes_eq text two_phrases
    then some (events (document both))
    else if bytes_eq text (bytes "{\"phrases\":[{\"start_offset\":3}]}")
    then some (events (document (first ∷ [])))
    else if bytes_eq text (bytes "{\"phrases\":[{\"words\":[\"he\"]}]}")
    then some (events (document (second ∷ [])))
    else none

abbrev Reads : Slice Json → Type 0
Reads s =
    two_parser (phrases_prefix ++ (slice_text s ++ phrases_suffix))
    ≡ some (events (document (items_in s)))

two_reads : ReadsSlices two_parser both
two_reads [] after (i, []) e = let same : first ≡ i = cc e in subst (λ i. Reads (i, [])) same refl
two_reads [] after (i, j ∷ []) e =
    let same : first ≡ i = cc e in
    let next : second ≡ j = cc e in
    subst (λ j. Reads (i, j ∷ [])) next (subst (λ i. Reads (i, second ∷ [])) same refl)
two_reads [] after (i, j ∷ (k ∷ more)) e = absurd (omega (arith, ap length e))
two_reads (x ∷ []) after (i, []) e =
    let same : second ≡ i = cc e in subst (λ i. Reads (i, [])) same refl
two_reads (x ∷ []) after (i, j ∷ more) e = absurd (omega (arith, ap length e))
two_reads (x ∷ (y ∷ before)) after s e =
    let n = length-append before (items_in s ++ after) in absurd (omega (arith, ap length e))

two_array_start : array_start two_phrases ≡ some 12
unfolding array_start
two_array_start = refl

two_ranges_apart : find_phrase_chunk_boundaries two_phrases 2 ≡ (12, 30) ∷ (31, 47) ∷ []
unfolding find_phrase_chunk_boundaries
two_ranges_apart = refl

two-Readable : Readable two_parser two_phrases (document both) both
two-Readable = record {
  start = 12;
  gap = [];
  rest = bytes "}";
  starts = two_array_start;
  array = refl;
  well_formed = ground arith;
  ordinary = tt;
  reads_file = refl;
  has_array = refl;
  same_phrases = refl;
  reads_slices = two_reads;
  short = ground arith;
}

analyze-ok_example : analyze two_parser two_phrases 2 ≡ ok (report_of (phrases (document both)))
analyze-ok_example = analyze-ok two_parser two_phrases (document both) both 2 two-Readable
