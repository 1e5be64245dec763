-- ===== src/Analyzer/Analysis/Parsing.antt =====
-- One thread and one chunk, when the parser reads their texts.
use mathlib.Core.List.{append-nil}
use pi_poetry.Base.{
  ◌+◌, ◌-◌, ◌≡◌, refl, sym, ap, ◌∙◌, true, some, List, [], ◌∷◌, ◌++◌, append_assoc, arith, length,
  drop, Bytes, bytes,
}
use pi_poetry.Base.Lists.{length-append, length-take, length-drop}
use pi_poetry.Base.Result.{ok, ◌>>=◌}
use pi_poetry.Analyzer.Stats.{Phrase, empty, add_phrases}
use pi_poetry.Analyzer.Report.{write_statistics}
use pi_poetry.Analyzer.Sax.{constructed, run}
use pi_poetry.Analyzer.Sax.Document.{
  Json, array, object, Items, no_items, item, no_members, member, events, phrase_of, phrases_in,
  phrases, has_phrases,
}
use pi_poetry.Analyzer.Sax.Whole.{run-phrases}
use pi_poetry.Analyzer.Chunks.{Range}
use pi_poetry.Analyzer.Chunks.Texts.{Element}
use pi_poetry.Analyzer.Stream.{phrases_prefix, phrases_suffix, opened, read_all}
use pi_poetry.Analyzer.Stream.Draining.{range_text, read_all-opened}
use pi_poetry.Analyzer.Files.{directory, write_phrases}
use pi_poetry.Analyzer.Analysis.{
  Analysis, Parser, sax_parse, single, analyze_single_threaded, Part, part_of, analyze_chunk,
}
use pi_poetry.Analyzer.Analysis.Slices.{Slice, items_in, slice_text}

-- Objects with the values that their texts stand for.
abbrev pub Valued : Type 0
Valued = List (Element × Json)

abbrev pub value_items : Valued → Items
value_items [] = no_items
value_items (i ∷ items) = item i.1 (value_items items)

abbrev pub item_phrases : Valued → List Phrase
item_phrases [] = []
item_phrases (i ∷ items) = phrase_of i.1 ++ item_phrases items

abbrev pub document : Valued → Json
document items = object (member (bytes "phrases") (array (value_items items)) no_members)

phrases_in-value_items : (items : Valued) → phrases_in (value_items items) ≡ item_phrases items
phrases_in-value_items [] = refl
phrases_in-value_items (i ∷ items) = ap (◌++◌ (phrase_of i.1)) (phrases_in-value_items items)

phrases-document : (items : Valued) → phrases (document items) ≡ item_phrases items
phrases-document items = append-nil (phrases_in (value_items items)) ∙ phrases_in-value_items items

pub item_phrases-append : (a b : Valued) → item_phrases (a ++ b) ≡ item_phrases a ++ item_phrases b
item_phrases-append [] b = refl
item_phrases-append (i ∷ a) b =
    ap (◌++◌ (phrase_of i.1)) (item_phrases-append a b)
    ∙ sym (append_assoc (phrase_of i.1) (item_phrases a) (item_phrases b))

-- The parser reads objects that follow one another, put between the prefix and the suffix, as the
-- document of their values.
abbrev pub ReadsSlices : Parser → Valued → Type 0
ReadsSlices parse items =
    (before after : Valued) (s : Slice Json)
    → items ≡ before ++ (items_in s ++ after)
    → parse (phrases_prefix ++ (slice_text s ++ phrases_suffix))
      ≡ some (events (document (items_in s)))

abbrev pub report_of : List Phrase → Analysis
report_of ps = record {
  statistics = write_statistics (add_phrases empty ps);
  files = directory (write_phrases [] ps);
}

pub analyze_single_threaded-ok :
    (parse : Parser) (file : Bytes) (v : Json)
    → parse file ≡ some (events v)
    → has_phrases v ≡ true
    → analyze_single_threaded parse file ≡ ok (report_of (phrases v))
unfolding analyze_single_threaded
analyze_single_threaded-ok parse file v read has =
    let (ps, saw) = run-phrases v in
    let handler = run constructed (events v) in
    let taken : single handler ≡ ok (report_of handler.1) = rw (saw, has) refl in
    ap (λ o. sax_parse o >>= single) read ∙ taken ∙ ap (λ ps. ok (report_of ps)) ps

abbrev pub part_for : List Phrase → Part
part_for ps = (add_phrases empty ps, directory (write_phrases [] ps))

read_chunk :
    (file : Bytes) (chunk : Range)
    → read_all (length file + 15) (opened file chunk.0 chunk.1)
      ≡ phrases_prefix ++ (range_text file chunk.0 chunk.1 ++ phrases_suffix)
read_chunk file chunk =
    let text = range_text file chunk.0 chunk.1 in
    let a = length-take (chunk.1 - chunk.0) (drop chunk.0 file) in
    let b = length-drop chunk.0 file in
    let c = length-append text phrases_suffix in
    let d = length-append phrases_prefix (text ++ phrases_suffix) in
    read_all-opened file chunk.0 chunk.1 (length file + 15) (omega arith)

pub analyze_chunk-ok :
    (parse : Parser) (file : Bytes) (chunk : Range) (s : Slice Json)
    → range_text file chunk.0 chunk.1 ≡ slice_text s
    → parse (phrases_prefix ++ (slice_text s ++ phrases_suffix))
      ≡ some (events (document (items_in s)))
    → analyze_chunk parse file chunk ≡ ok (part_for (item_phrases (items_in s)))
unfolding analyze_chunk
analyze_chunk-ok parse file chunk s is read =
    let ps = (run-phrases (document (items_in s))).0 ∙ phrases-document (items_in s) in
    ap (λ t. sax_parse (parse t) >>= part_of)
      (read_chunk file chunk ∙ ap (λ t. phrases_prefix ++ (t ++ phrases_suffix)) is)
    ∙ ap (λ o. sax_parse o >>= part_of) read
    ∙ ap (λ ps. ok (part_for ps)) ps
