-- ===== src/Analyzer/Chunks/Boundaries.antt =====
-- `find_phrase_chunk_boundaries` on a file whose array is closed.
use pi_poetry.Base.{
  ℕ, zero, suc, ◌+◌, ◌-◌, ◌≤◌, ◌≡◌, refl, ap, ◌∙◌, true, some, List, [], ◌∷◌, ◌++◌, append_assoc,
  arith, All, length, map, concat, max, drop, Bytes,
}
use pi_poetry.Analyzer.Chunks.{
  Range, Scan, scan_byte, scan_bytes, scan_starts, targets_from, array_start, dedup, ranges_between,
  ranges_of, find_phrase_chunk_boundaries,
}
use pi_poetry.Analyzer.Chunks.Texts.{
  Ordinary, Element, object_text, elements_text, IsElement, spans,
}
use pi_poetry.Analyzer.Chunks.Scanning.{scan_bytes-gap}
use pi_poetry.Analyzer.Chunks.Objects.{
  between, scan_bytes-first, scan_bytes-elements, cut_all, last_end,
}
use pi_poetry.Analyzer.Chunks.Groups.{
  Group, objects_of, range_of, Ordered, cut_all-Gaps, dedup-Grouped, length-dedup,
  length-ranges_between,
}

spans-Ordered : (pos : ℕ) (os : List Element) → Ordered pos (spans pos os)
spans-Ordered pos [] = tt
spans-Ordered pos (o ∷ os) =
    (omega arith, omega arith, spans-Ordered (pos + length o.gap + length (object_text o)) os)

-- The closing bracket of the array.
array_closes :
    (gap : Bytes) (s : Scan) (rest : Bytes)
    → All Ordinary gap
    → (p : ℕ) × (scan_bytes
          (between s.pos s.object_count s.first_object_start s.prev_object_end s.targets s.cuts)
          (gap ++ b']' ∷ rest)
        ≡ record (between p s.object_count s.first_object_start s.prev_object_end s.targets
            s.cuts) { finished = true })
unfolding scan_bytes scan_byte
array_closes gap s rest h =
    let b : Scan =
      between s.pos s.object_count s.first_object_start s.prev_object_end s.targets s.cuts in
    (s.pos + length gap, scan_bytes-gap gap b s.pos 0 (b']' ∷ rest) h ∙ refl)

-- What stands after the bracket that opens the array: the objects, the closing bracket and the rest.
abbrev pub array_text : List Element → Bytes → Bytes → Bytes
array_text os gap rest = elements_text os ++ (gap ++ b']' ∷ rest)

-- The ranges cover the objects in groups, and there are at most `most` of them.
abbrev pub Covers : ℕ → List Range → List Range → Type 0
Covers most spans ranges =
    (groups : List Group) × (concat (map objects_of groups) ≡ spans)
    × (ranges ≡ map range_of groups)
    × (length ranges ≤ most)

scanned_ranges :
    (start : ℕ) (targets : List ℕ) (os : List Element) (gap rest : Bytes)
    → All IsElement os
    → All Ordinary gap
    → (let s = scan_bytes (scan_starts start targets) (array_text os gap rest) in
        Covers (suc (length targets)) (spans start os) (ranges_of s s.object_count))
scanned_ranges start targets [] gap rest h g =
    let (p, e) = array_closes gap (scan_starts start targets) rest g in
    ([], refl, ap (λ s. ranges_of s s.object_count) e, rw e (omega arith))
scanned_ranges start targets (o ∷ os) gap rest h g =
    let first = start + length o.gap in
    let end = first + length (object_text o) in
    let later = spans end os in
    let t = cut_all end later (targets, []) in
    let last = last_end end later in
    let s : Scan = between last (suc (length os)) first last t.0 t.1 in
    let (p, closes) = array_closes gap s rest g in
    let scanned =
      ap (scan_bytes (scan_starts start targets)) (
        append_assoc o.gap (object_text o ++ elements_text os) (gap ++ b']' ∷ rest)
        ∙ ap (◌++◌ o.gap) (append_assoc (object_text o) (elements_text os) (gap ++ b']' ∷ rest)))
      ∙ scan_bytes-first o start targets (elements_text os ++ (gap ++ b']' ∷ rest)) h.0
      ∙ scan_bytes-elements os 0 first end targets [] (gap ++ b']' ∷ rest) h.1
      ∙ ap (λ n. scan_bytes (between last n first last t.0 t.1) (gap ++ b']' ∷ rest))
          (let e : 1 + length os ≡ suc (length os) = omega arith in e)
      ∙ closes in
    let (more, e, gaps, few) = cut_all-Gaps end later targets [] in
    let (front, groups, f, r) =
      dedup-Grouped first end later more (omega arith) (spans-Ordered end os) gaps in
    let is : ranges_of (scan_bytes (scan_starts start targets) (array_text (o ∷ os) gap rest))
          (scan_bytes (scan_starts start targets) (array_text (o ∷ os) gap rest)).object_count
        ≡ ranges_between first (dedup more) last =
      ap (λ s. ranges_of s s.object_count) scanned
      ∙ ap (λ cuts. ranges_between first (dedup cuts) last) e in
    let n1 = length-ranges_between first (dedup more) last in
    let n2 = length-dedup more in
    (((first, end), front) ∷ groups, ap (◌∷◌ (first, end)) f, is ∙ r, rw is (omega arith))

length-targets_from :
    (start span n k count : ℕ) → length (targets_from start span n k count) ≡ count
length-targets_from start span n k zero = refl
length-targets_from start span n k (suc count) =
    omega (arith, length-targets_from start span n (suc k) count)

-- In a file whose array, from the bracket after "phrases" on, is a list of objects with text without
-- quotes and brackets between them and then a closing bracket, the ranges cover the objects: they are
-- the ranges of groups of objects that follow one another, from the start of a group's first object to
-- the end of its last one, every object in exactly one group and in order, and there are at most as
-- many as threads, of which at least one is assumed. Without an object there is no range.
pub find_phrase_chunk_boundaries-Covers :
    (file : Bytes) (n_threads start : ℕ) (os : List Element) (gap rest : Bytes)
    → array_start file ≡ some start
    → drop start file ≡ array_text os gap rest
    → All IsElement os
    → All Ordinary gap
    → Covers (max 1 n_threads) (spans start os) (find_phrase_chunk_boundaries file n_threads)
unfolding find_phrase_chunk_boundaries
find_phrase_chunk_boundaries-Covers file zero start os gap rest at is h g =
    rw (at, is) (scanned_ranges start [] os gap rest h g)
find_phrase_chunk_boundaries-Covers file (suc n) start os gap rest at is h g =
    let targets = targets_from start (length file - start) (suc n) 1 (suc n - 1) in
    let count = length-targets_from start (length file - start) (suc n) 1 (suc n - 1) in
    let (groups, f, r, few) = scanned_ranges start targets os gap rest h g in
    rw (at, is) (groups, f, r, omega arith)
