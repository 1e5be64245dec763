-- ===== src/Lib.antt =====
-- Pi Poetry: a verification library beside the C++ program of the same name.
--
-- The program reads digits of pi, maps groups of digits to letters, finds dictionary words in the
-- letters with an Aho-Corasick automaton, selects words by an overlap policy, groups touching words
-- into phrases, and writes them as JSON; an analyzer then reads the results and makes statistics.
-- In parallel runs a dispatcher cuts the digits into chunks, each stage has a pool of workers
-- between bounded queues, and one writer thread puts the results back into order.
--
-- Which file models which part (paths of the program from the root of the repository):
--   Base                     shared names: Boolean tests, lists over native numbers, slices, sorted
--                            maps (`std::map` with number keys), 64-bit arithmetic, byte strings,
--                            and in Int the casts between `int` and `std::size_t`.
--   Finder/Word              include/word_finder/WordFinder.hpp: `WordMatch`.
--   Finder/Policy            src/word_finder/AhoCorasickCPU.cpp: `apply_etl_cb`,
--                            `apply_all_combos_cb`, `chain_has_qualifying_run`, `apply_policy_cb`.
--   Finder/Etl               the policy EarliestThenLongest, and its proofs.
--   Finder/Automaton         src/word_finder/AhoCorasickCPU.cpp: `insert_word`, `load_dictionary`,
--                            and in Trie their proofs; Build has `build`, Scan has `scan_chunk` and
--                            `scan`.
--   Digits                   include/digit_source/DigitSource.hpp and
--                            include/digit_mapper/DigitMapper.hpp: the interfaces and their laws.
--   Digits/FileSource        src/digit_source/FileDigitSource.cpp.
--   Digits/ApiSource         src/digit_source/ApiDigitSource.cpp: `fetch_range`, `read_at`, `next_chunk`
--                            and the other members but the constructor.
--   Digits/TwoDigitBlock     src/digit_mapper/TwoDigitBlockMapper.cpp.
--   Digits/MappingFile       src/digit_mapper/MappingFileMapper.cpp, and in Shipped the file
--                            config/mappings/two_digit_block.txt.
--   GenMapping               src/gen_mapping/GenMapping.cpp: `count_char_frequencies`,
--                            `assign_combos`, `shuffle_assignments`, `write_mapping`.
--   PhraseScanner            src/phrase_scanner/HumanReviewScanner.cpp: `process_words`,
--                            `process_words_streaming`, `flush_streaming`.
--   Pipeline/DigitDispatcher include/pipeline/DigitDispatcher.hpp: `next`.
--   Pipeline/ReorderBuffer   include/pipeline/ReorderBuffer.hpp: `submit`, `drain`, and the writer
--                            thread of `run_parallel` in src/pipeline/Pipeline.cpp.
--   Pipeline/Serial          src/pipeline/Pipeline.cpp: `run`.
--   Pipeline/Stage           include/pipeline/BoundedQueue.hpp and include/pipeline/StageRunner.hpp, as
--                            a step relation.
--   Pipeline/Workers         src/pipeline/Pipeline.cpp: `DigitMapperWorker` and `WordFinderWorker`.
--   Analyzer/Stats           src/result_analyzer/ResultAnalyzer.cpp: `PhraseStatsAccumulator`.
--   Analyzer/Report          the same file: `top_n_longest_words` and `write_statistics`.
--   Analyzer/Sax             the same file: `PhraseStreamHandler`.
--   Analyzer/Chunks          the same file: `find_phrase_chunk_boundaries`.
--   Analyzer/Stream          the same file: `PhraseChunkStreamBuf`.
--   Analyzer/Files           the same file: `PhraseFileWriter` and `merge_part_files`.
--   Analyzer/Analysis        the same file: `analyze`, `analyze_single_threaded`, `analyze_chunk` and
--                            `analyze_parallel`.
--
-- How state and operations correspond: a class is a record of its data members, an operation is a
-- function to the new record and its result; a callback is the list of the values that it is called
-- with, in order. A `std::string` is the list of its bytes. A `std::map` is the list of its entries in
-- the order of its keys; the unordered map of the analyzer is a list of entries. `std::size_t` sums
-- that can grow with the input are taken modulo 2^64, and a cast to `int` keeps the low 32 bits (a
-- signed number of Base/Int where its sign shows);
-- counters bounded by the number of elements of a container in memory are plain numbers, and so are offsets
-- in a file and the depth of its brackets, an `int` in the source.
--
-- Fuel: `phrase_loop` has one round for each word, since a round takes at least one; `drain_loop` has
-- one more than the entries of `final_idx_`, of which a round removes one; the loop of the serial run
-- takes its fuel as an argument, of which one more than the number of digits is enough. The theorems
-- about their results include that the fuel suffices. `dfs` has one more than the number of distinct
-- starts, the loop of `build` and the walk along the output links have the number of nodes; that these
-- are enough has no theorem yet. `to_string` has as fuel the number itself, which has no more digits.
-- `read_all` takes its fuel as an argument, of which one more than the number of bytes is enough, and
-- `read_loop` of the HTTP source one of which the number of digits is enough, when the server answers
-- with digits.
--
-- Parameters: the dispatcher takes the digit source's `read_at` as a function, with the hypothesis
-- that it reads the digits from an offset on, as many as there are. The serial run takes a digit source
-- and a mapper as records of their operations, with the laws `SourceLaws` and `MapperLaws`, which
-- `FileDigitSource`, `TwoDigitBlockMapper` and `MappingFileMapper` keep. The generator's shuffle is
-- a function on lists, with the hypothesis that it keeps the length. The JSON parser is the list of
-- the events that it reports for a document, which is a tree; the analysis takes the parser as a
-- function from a text to the events, with hypotheses on the texts of one file. The HTTP source takes
-- the client as a function from a query and the number of the attempt to the response.
--
-- Not modelled: the last stage's worker and `run_parallel`, the HTTP source's setup, the generator's
-- `allocate_slots` (double arithmetic), and the config validator; the programs' command lines, files
-- and clocks; JSON, TOML and HTTP libraries.
pub mod Analyzer
pub mod Base
pub mod Digits
pub mod Finder
pub mod GenMapping
pub mod PhraseScanner
pub mod Pipeline
