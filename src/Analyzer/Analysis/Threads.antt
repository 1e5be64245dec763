-- ===== src/Analyzer/Analysis/Threads.antt =====
-- The analysis does not depend on the number of threads.
use pi_poetry.Base.{
  ℕ, ◌≡◌, refl, sym, ap, ◌∙◌, subst, true, some, List, [], ◌∷◌, ◌++◌, append_assoc, arith, All,
  length, map, concat, drop, ltb, Bytes, Bool-cases, inl, inr,
}
use pi_poetry.Base.Result.{ok, ◌>>=◌}
use pi_poetry.Analyzer.Stats.{Phrase, empty, add_phrases}
use pi_poetry.Analyzer.Stats.Merge.{part_stats}
use pi_poetry.Analyzer.Report.Same.{write_statistics-merge_all}
use pi_poetry.Analyzer.Sax.Document.{Json, events, phrases, has_phrases}
use pi_poetry.Analyzer.Chunks.{Range, array_start, find_phrase_chunk_boundaries}
use pi_poetry.Analyzer.Chunks.Texts.{IsElement, Ordinary}
use pi_poetry.Analyzer.Chunks.Groups.{Group, range_of}
use pi_poetry.Analyzer.Chunks.Boundaries.{array_text, find_phrase_chunk_boundaries-Covers}
use pi_poetry.Analyzer.Stream.Draining.{range_text}
use pi_poetry.Analyzer.Files.{directory, write_phrases}
use pi_poetry.Analyzer.Files.Lengths.{IsShort}
use pi_poetry.Analyzer.Files.Merging.{merge_part_files-eq-write_phrases}
use pi_poetry.Analyzer.Analysis.{Parser, merged, analyze_chunks, analyze_parallel, analyze}
use pi_poetry.Analyzer.Analysis.Slices.{Slice, elements, items_in, slice_text, groups-Sliced}
use pi_poetry.Analyzer.Analysis.Parsing.{
  Valued, item_phrases, item_phrases-append, ReadsSlices, report_of, analyze_single_threaded-ok,
  part_for, analyze_chunk-ok,
}

-- The phrases of the slices, slice by slice.
abbrev parts_of : List (Slice Json) → List (List Phrase)
parts_of = map (λ s. item_phrases (items_in s))

concat-parts_of :
    (slices : List (Slice Json))
    → concat (parts_of slices) ≡ item_phrases (concat (map items_in slices))
concat-parts_of [] = refl
concat-parts_of (s ∷ slices) =
    ap (◌++◌ (item_phrases (items_in s))) (concat-parts_of slices)
    ∙ sym (item_phrases-append (items_in s) (concat (map items_in slices)))

-- All chunks, when each is the text of its slice.
analyze_chunks-ok :
    (parse : Parser) (file : Bytes) (items before : Valued) (slices : List (Slice Json))
    (chunks : List Range)
    → ReadsSlices parse items
    → items ≡ before ++ concat (map items_in slices)
    → map (λ c. range_text file c.0 c.1) chunks ≡ map slice_text slices
    → analyze_chunks parse file chunks ≡ ok (map part_for (parts_of slices))
unfolding analyze_chunks
analyze_chunks-ok parse file items before [] [] reads split texts = refl
analyze_chunks-ok parse file items before [] (c ∷ chunks) reads split texts =
    absurd (omega (arith, ap length texts))
analyze_chunks-ok parse file items before (s ∷ slices) [] reads split texts =
    absurd (omega (arith, ap length texts))
analyze_chunks-ok parse file items before (s ∷ slices) (c ∷ chunks) reads split texts =
    let text : range_text file c.0 c.1 ≡ slice_text s = cc texts in
    let others : map (λ c. range_text file c.0 c.1) chunks ≡ map slice_text slices = cc texts in
    let here =
      analyze_chunk-ok parse file c s text (reads before (concat (map items_in slices)) s split) in
    let there =
      analyze_chunks-ok parse file items (before ++ items_in s) slices chunks reads
        (split ∙ sym (append_assoc before (items_in s) (concat (map items_in slices)))) others in
    rw (here, there) refl

stats_of_parts :
    (parts : List (List Phrase)) → map (λ part. part.0) (map part_for parts) ≡ part_stats parts
stats_of_parts [] = refl
stats_of_parts (ps ∷ parts) = ap (◌∷◌ (add_phrases empty ps)) (stats_of_parts parts)

files_of_parts :
    (parts : List (List Phrase))
    → map (λ part. part.1) (map part_for parts) ≡ map (λ ps. directory (write_phrases [] ps)) parts
files_of_parts [] = refl
files_of_parts (ps ∷ parts) = ap (◌∷◌ (directory (write_phrases [] ps))) (files_of_parts parts)

merged-ok :
    (parts : List (List Phrase))
    → All (All IsShort) parts
    → merged (map part_for parts) ≡ ok (report_of (concat parts))
merged-ok parts short =
    rw
      (
        stats_of_parts parts,
        files_of_parts parts,
        merge_part_files-eq-write_phrases parts short,
        write_statistics-merge_all parts,
      )
      refl

All-left {ℓ} :
    {A : Type 0} (P : A → Type ℓ) (xs ys : List A) → All P (xs ++ ys) → All P xs × All P ys
All-left P [] ys h = (tt, h)
All-left P (x ∷ xs) ys h = let (a, b) = All-left P xs ys h.1 in ((h.0, a), b)

All-concat {ℓ} :
    {A : Type 0} (P : A → Type ℓ) (xss : List (List A)) → All P (concat xss) → All (All P) xss
All-concat P [] h = tt
All-concat P (xs ∷ xss) h = let (a, b) = All-left P xs (concat xss) h in (a, All-concat P xss b)

texts_of_ranges :
    (file : Bytes) (groups : List Group)
    → map (λ c. range_text file c.0 c.1) (map range_of groups)
      ≡ map (λ g. range_text file (range_of g).0 (range_of g).1) groups
texts_of_ranges file [] = refl
texts_of_ranges file (g ∷ groups) =
    ap (◌∷◌ (range_text file (range_of g).0 (range_of g).1)) (texts_of_ranges file groups)

-- The file, with its objects and their values, and the parser on it.
pub record Readable (parse : Parser) (file : Bytes) (v : Json) (items : Valued) : Type 0 where
  pub start : ℕ
  pub gap : Bytes
  pub rest : Bytes
  pub starts : array_start file ≡ some start
  pub array : drop start file ≡ array_text (elements items) gap rest
  pub well_formed : All IsElement (elements items)
  pub ordinary : All Ordinary gap
  pub reads_file : parse file ≡ some (events v)
  pub has_array : has_phrases v ≡ true
  pub same_phrases : phrases v ≡ item_phrases items
  pub reads_slices : ReadsSlices parse items
  pub short : All IsShort (phrases v)

analyze_parallel-ok :
    (parse : Parser) (file : Bytes) (v : Json) (items : Valued) (n_threads : ℕ)
    → Readable parse file v items
    → analyze_parallel parse file (find_phrase_chunk_boundaries file n_threads)
      ≡ ok (report_of (phrases v))
unfolding analyze_parallel
analyze_parallel-ok parse file v items n_threads r =
    let (groups, covers, ranges, few) =
      find_phrase_chunk_boundaries-Covers file n_threads r.start (elements items) r.gap r.rest
        r.starts r.array r.well_formed r.ordinary in
    let (slices, whole, texts) =
      groups-Sliced file groups r.start items (r.gap ++ b']' ∷ r.rest) covers r.array in
    let parts = parts_of slices in
    let all : concat parts ≡ phrases v =
      concat-parts_of slices ∙ ap item_phrases (sym whole) ∙ sym r.same_phrases in
    let chunks = find_phrase_chunk_boundaries file n_threads in
    let read : analyze_chunks parse file chunks ≡ ok (map part_for parts) =
      analyze_chunks-ok parse file items [] slices chunks r.reads_slices whole
        (ap (map (λ c. range_text file c.0 c.1)) ranges ∙ texts_of_ranges file groups ∙ texts) in
    ap (λ m. m >>= merged) read
    ∙ merged-ok parts (All-concat IsShort parts (subst (All IsShort) (sym all) r.short))
    ∙ ap (λ ps. ok (report_of ps)) all

-- For every number of threads the analysis of a readable file succeeds, with the statistics and the
-- files that one accumulator and one writer make of the phrases of the document in their order. A file
-- is readable when: it has the array of objects that `find_phrase_chunk_boundaries` looks for, in which
-- the objects stand with text without quotes and brackets between them; the parser reads the file as a
-- document whose phrases are those of the objects' values, and reads objects that follow one another,
-- put between the prefix and the suffix of a chunk, as the document of their values; and no phrase has
-- 2^64 words or more.
pub analyze-ok :
    (parse : Parser) (file : Bytes) (v : Json) (items : Valued) (n_threads : ℕ)
    → Readable parse file v items
    → analyze parse file n_threads ≡ ok (report_of (phrases v))
unfolding analyze
analyze-ok parse file v items n_threads r =
    let chunks = find_phrase_chunk_boundaries file n_threads in
    let serial = analyze_single_threaded-ok parse file v r.reads_file r.has_array in
    elim (Bool-cases (ltb 1 n_threads)) [
      | inr one ↦ rw one serial
      | inl many ↦ elim (Bool-cases (ltb 1 (length chunks))) [
        | inr few ↦ rw (many, few) serial
        | inl enough ↦ rw (many, enough) (analyze_parallel-ok parse file v items n_threads r)
      ]
    ]
