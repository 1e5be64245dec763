-- ===== src/Analyzer/Chunks.antt =====
-- `find_phrase_chunk_boundaries` of src/result_analyzer/ResultAnalyzer.cpp over the bytes of the file. The
-- file is read in blocks there; the bytes come in the same order.
pub mod Texts
pub mod Scanning
pub mod Objects
pub mod Groups
pub mod Boundaries
mod Tests
use pi_poetry.Base.{
  ℕ, zero, suc, ◌+◌, ◌-◌, ◌*◌, ◌/◌, ◌%◌, ◌^◌, Bool, true, false, ◌&&◌, ◌||◌, Option, none, some,
  List, [], ◌∷◌, ◌++◌, ◌==◌, leb, ltb, if◌then◌else◌, length, take, drop, add64, Bytes, bytes,
}

-- Offsets in the file: where a range starts, and where it ends.
abbrev pub Range : Type 0
Range = ℕ × ℕ

-- `std::string::find` of a text: what follows its first occurrence, with the offset there.
abbrev pub strip_prefix : Bytes → Bytes → Option Bytes
strip_prefix [] s = some s
strip_prefix (c ∷ text) [] = none
strip_prefix (c ∷ text) (d ∷ s) = let rest = strip_prefix text s in if c == d then rest else none

abbrev pub find_text : Bytes → Bytes → ℕ → Option ℕ
find_text text [] pos = elim (strip_prefix text []) [ none ↦ none | some _ ↦ some pos ]
find_text text (c ∷ s) pos = elim (strip_prefix text (c ∷ s)) [
  | none ↦ find_text text s (suc pos)
  | some _ ↦ some pos
]

abbrev pub prefix_scan : ℕ
prefix_scan = 65536

-- `bracket_pos + 1`.
abbrev pub bracket_after : Bytes → Option ℕ → Option ℕ
bracket_after prefix none = none
bracket_after prefix (some key_pos) = elim (find_text (bytes "[") (drop key_pos prefix) key_pos) [
  | none ↦ none
  | some p ↦ some (p + 1)
]

unfoldable pub array_start : Bytes → Option ℕ
array_start file =
    let prefix = take prefix_scan file in
    bracket_after prefix (find_text (bytes "\"phrases\":") prefix 0)

-- The targets for `k` from `from` on, `count` of them.
abbrev pub targets_from : ℕ → ℕ → ℕ → ℕ → ℕ → List ℕ
targets_from start span n_threads k zero = []
targets_from start span n_threads k (suc count) =
    add64 start (span * k % 2 ^ 64 / n_threads) ∷ targets_from start span n_threads (suc k) count

-- What the loop over the bytes keeps; `targets` are those from `next_target` on.
pub record Scan : Type 0 where
  pub pos : ℕ
  pub depth : ℕ
  pub in_string : Bool
  pub escape : Bool
  pub object_count : ℕ
  pub targets : List ℕ
  pub cuts : List Range
  pub first_object_start : ℕ
  pub prev_object_end : ℕ
  pub last_object_end : ℕ
  pub finished : Bool

-- The targets that `pos` has reached, each with a cut.
abbrev pub cut_loop : Range → List ℕ → List Range → List ℕ × List Range
cut_loop cut [] cuts = ([], cuts)
cut_loop cut (t ∷ targets) cuts =
    let rest = cut_loop cut targets (cuts ++ cut ∷ []) in
    if leb t cut.1 then rest else (t ∷ targets, cuts)

abbrev pub object_starts : Scan → ℕ → Scan
object_starts s zero = record s { first_object_start = s.pos }
object_starts s (suc n) =
    let cut = cut_loop (s.prev_object_end, s.pos) s.targets s.cuts in
    record s { targets = cut.0; cuts = cut.1 }

abbrev pub advance : Scan → Scan
advance s = record s { pos = s.pos + 1 }

abbrev pub on_open : Scan → Scan
on_open s =
    let t = if s.depth == 0 then object_starts s s.object_count else s in
    record t { depth = t.depth + 1; pos = t.pos + 1 }

abbrev pub object_ends : Scan → Scan
object_ends s = record s {
  prev_object_end = s.pos + 1;
  last_object_end = s.pos + 1;
  object_count = s.object_count + 1;
}

abbrev pub on_close : Scan → ℕ → Scan
on_close s zero = record s { finished = true }
on_close s (suc d) =
    let t = if d == 0 then object_ends s else s in record t { depth = d; pos = t.pos + 1 }

abbrev pub on_string : Scan → ℕ → Scan
on_string s b =
    if s.escape
    then record s { escape = false }
    else if b == b'\\'
    then record s { escape = true }
    else if b == b'"'
    then record s { in_string = false }
    else s

unfoldable pub scan_byte : Scan → ℕ → Scan
scan_byte s b =
    if s.in_string
    then advance (on_string s b)
    else if b == b'"'
    then record s { in_string = true; pos = s.pos + 1 }
    else if b == b'{' || b == b'['
    then on_open s
    else if b == b'}' || b == b']'
    then on_close s s.depth
    else advance s

-- The loop over the bytes.
unfoldable pub scan_bytes : Scan → Bytes → Scan
unfolding scan_byte
scan_bytes s [] = s
scan_bytes s (b ∷ bs) =
    let next = scan_byte s b in
    let rest = scan_bytes next bs in if next.finished then next else rest

abbrev pub scan_starts : ℕ → List ℕ → Scan
scan_starts start targets = record {
  pos = start;
  depth = 0;
  in_string = false;
  escape = false;
  object_count = 0;
  targets = targets;
  cuts = [];
  first_object_start = start;
  prev_object_end = start;
  last_object_end = start;
  finished = false;
}

-- Equal cuts one after the other become one.
abbrev pub same_range : Range → Range → Bool
same_range a b = a.0 == b.0 && a.1 == b.1

abbrev pub dedup_after : Range → List Range → List Range
dedup_after last [] = []
dedup_after last (c ∷ cuts) =
    if same_range c last then dedup_after last cuts else c ∷ dedup_after c cuts

abbrev pub dedup : List Range → List Range
dedup [] = []
dedup (c ∷ cuts) = c ∷ dedup_after c cuts

-- The ranges between the cuts.
unfoldable pub ranges_between : ℕ → List Range → ℕ → List Range
ranges_between start [] last = (start, last) ∷ []
ranges_between start (c ∷ cuts) last = (start, c.0) ∷ ranges_between c.1 cuts last

abbrev pub ranges_of : Scan → ℕ → List Range
ranges_of s zero = []
ranges_of s (suc n) = ranges_between s.first_object_start (dedup s.cuts) s.last_object_end

abbrev pub boundaries_from : Bytes → ℕ → Option ℕ → List Range
boundaries_from file n_threads none = []
boundaries_from file n_threads (some start) =
    let targets = targets_from start (length file - start) n_threads 1 (n_threads - 1) in
    let s = scan_bytes (scan_starts start targets) (drop start file) in ranges_of s s.object_count

unfoldable pub find_phrase_chunk_boundaries : Bytes → ℕ → List Range
unfolding scan_bytes array_start ranges_between
find_phrase_chunk_boundaries file zero = boundaries_from file 1 (array_start file)
find_phrase_chunk_boundaries file (suc n) = boundaries_from file (suc n) (array_start file)
