-- ===== src/Analyzer/Analysis.antt =====
-- `analyze` of src/result_analyzer/ResultAnalyzer.cpp with `analyze_single_threaded`, `analyze_chunk` and
-- `analyze_parallel`, over the bytes of results.json. `parse` stands for the JSON parser: the events that it
-- reports for a text, or `none` where it throws.
pub mod Slices
pub mod Parsing
pub mod Threads
mod Tests
use pi_poetry.Base.{
  ℕ, suc, ◌+◌, Bool, true, false, Option, none, some, List, [], ◌∷◌, ltb, if◌then◌else◌, length,
  map, Bytes,
}
use pi_poetry.Base.Result.{Result, ok, err, ◌>>=◌}
use pi_poetry.Analyzer.Stats.{Phrase, Stats, empty, add_phrases, merge_all}
use pi_poetry.Analyzer.Report.{write_statistics}
use pi_poetry.Analyzer.Sax.{Event, PhraseStreamHandler, constructed, run}
use pi_poetry.Analyzer.Chunks.{Range, find_phrase_chunk_boundaries}
use pi_poetry.Analyzer.Stream.{opened, read_all}
use pi_poetry.Analyzer.Files.{Directory, directory, write_phrases, merge_part_files}

-- What ends an analysis: an exception of the parser, the missing key, or that of `std::stoul`.
pub data AnalysisError : Type 0 where
  parse_error missing_phrases bad_length : AnalysisError

-- statistics.txt and the files of the phrases.
pub record Analysis : Type 0 where
  pub statistics : Bytes
  pub files : Directory

abbrev pub Parser : Type 0
Parser = Bytes → Option (List Event)

abbrev pub sax_parse :
    Option (List Event) → Result AnalysisError (PhraseStreamHandler × List Phrase)
sax_parse none = err parse_error
sax_parse (some events) = ok (run constructed events)

abbrev pub single : PhraseStreamHandler × List Phrase → Result AnalysisError Analysis
single (handler, ps) =
    if handler.saw_phrases
    then ok (record {
      statistics = write_statistics (add_phrases empty ps);
      files = directory (write_phrases [] ps);
    })
    else err missing_phrases

unfoldable pub analyze_single_threaded : Parser → Bytes → Result AnalysisError Analysis
analyze_single_threaded parse file = sax_parse (parse file) >>= single

-- What a thread leaves: its accumulator and the files in its directory.
abbrev pub Part : Type 0
Part = Stats × Directory

abbrev pub part_of : PhraseStreamHandler × List Phrase → Result AnalysisError Part
part_of (handler, ps) = ok (add_phrases empty ps, directory (write_phrases [] ps))

unfoldable pub analyze_chunk : Parser → Bytes → Range → Result AnalysisError Part
analyze_chunk parse file chunk =
    sax_parse (parse (read_all (length file + 15) (opened file chunk.0 chunk.1))) >>= part_of

-- All threads, of which the first error is thrown again.
unfoldable pub analyze_chunks : Parser → Bytes → List Range → Result AnalysisError (List Part)
unfolding analyze_chunk
analyze_chunks parse file [] = ok []
analyze_chunks parse file (chunk ∷ chunks) =
    analyze_chunk parse file chunk
    >>= (λ part. analyze_chunks parse file chunks >>= (λ parts. ok (part ∷ parts)))

abbrev pub with_files : Bytes → Option Directory → Result AnalysisError Analysis
with_files statistics none = err bad_length
with_files statistics (some files) = ok (record { statistics = statistics; files = files })

abbrev pub merged : List Part → Result AnalysisError Analysis
merged parts =
    with_files (write_statistics (merge_all empty (map (λ part. part.0) parts)))
      (merge_part_files (map (λ part. part.1) parts))

unfoldable pub analyze_parallel : Parser → Bytes → List Range → Result AnalysisError Analysis
unfolding analyze_chunks
analyze_parallel parse file chunks = analyze_chunks parse file chunks >>= merged

-- `analyze`.
unfoldable pub analyze : Parser → Bytes → ℕ → Result AnalysisError Analysis
unfolding analyze_single_threaded analyze_parallel
analyze parse file n_threads =
    let chunks = find_phrase_chunk_boundaries file n_threads in
    if ltb 1 n_threads
    then if ltb 1 (length chunks)
      then analyze_parallel parse file chunks
      else analyze_single_threaded parse file
    else analyze_single_threaded parse file
