-- ===== src/PhraseScanner/Runs.antt =====
-- What the phrases of `process_words` are: the words in order, cut exactly at the gaps.
use mathlib.Core.List.{Perm}
use pi_poetry.Base.{
  ℕ, zero, suc, ◌≤◌, ◌<◌, ◌+◌, ◌^◌, ◌≢◌, ◌↔◌, true, All, ◌≡◌, refl, ap, List, [], ◌∷◌, ◌++◌, map,
  arith, length, Bool-cases, inl, inr,
}
use pi_poetry.Finder.Word.{WordMatch}
use pi_poetry.Base.Text.{Bytes}
use pi_poetry.PhraseScanner.Sort.{
  sort_by_start_id, StartsFrom, sort_by_start-perm, sort_by_start-StartsFrom,
}
use pi_poetry.PhraseScanner.{
  insert_by_start, PhraseMatch, word_end, gap_is_zero, sort_by_start, extend, phrase_loop,
  process_words,
}

-- Offsets for which the 32-bit test on the gap is exact: the end of the word fits 32 bits.
abbrev pub InRange : WordMatch → Type 0
InRange w = w.start + w.length < 2 ^ 32

-- Each word starts where the one before it ended; the first, at `prev_end`.
abbrev pub Touching : ℕ → List WordMatch → Type 0
Touching prev_end [] = Unit {0}
Touching prev_end (w ∷ ws) = (w.start ≡ prev_end) × Touching (w.start + w.length) ws

abbrev pub run_end : ℕ → List WordMatch → ℕ
run_end prev_end [] = prev_end
run_end prev_end (w ∷ ws) = run_end (w.start + w.length) ws

-- The next word, if there is one, does not start at `prev_end`.
abbrev pub GapAt : ℕ → List WordMatch → Type 0
GapAt prev_end [] = Unit {0}
GapAt prev_end (w ∷ ws) = w.start ≢ prev_end

-- `Cuts ws ps`: the phrases `ps` are the words `ws` in order, cut into maximal runs of touching
-- words, each with the start of its first word.
pub data Cuts : List WordMatch → List PhraseMatch → Type 0 where
  done : Cuts [] []
  run :
      (w : WordMatch) (more rest ws : List WordMatch) (ps : List PhraseMatch)
      → ws ≡ w ∷ (more ++ rest)
      → Touching (w.start + w.length) more
      → GapAt (run_end (w.start + w.length) more) rest
      → Cuts rest ps
      → Cuts ws (
          record { start_offset = w.start; words = w.word ∷ map (λ (v : WordMatch). v.word) more }
          ∷ ps)

-- What the inner loop returns.
record Extends (prev_end : ℕ) (ws : List WordMatch) (found : List Bytes × List WordMatch)
    : Type 0 where
  more : List WordMatch
  split : ws ≡ more ++ found.1
  words : found.0 ≡ map (λ (v : WordMatch). v.word) more
  touching : Touching prev_end more
  gap : GapAt (run_end prev_end more) found.1
  in_range : All InRange found.1
  shorter : length found.1 ≤ length ws

gap_exact :
    (prev_end : ℕ) (w : WordMatch)
    → prev_end < 2 ^ 32
    → InRange w
    → (gap_is_zero w.start prev_end ≡ true) ↔ (w.start ≡ prev_end)
gap_exact prev_end w h r = ground arith

word_end_exact : (w : WordMatch) → InRange w → word_end w ≡ w.start + w.length
word_end_exact w r = omega arith

Extends-hit :
    (prev_end : ℕ) (w : WordMatch) (ws : List WordMatch) (found : List Bytes × List WordMatch)
    → w.start ≡ prev_end
    → Extends (w.start + w.length) ws found
    → Extends prev_end (w ∷ ws) (w.word ∷ found.0, found.1)
Extends-hit prev_end w ws found hit e = record {
  more = w ∷ e.more;
  split = ap (◌∷◌ w) e.split;
  words = ap (◌∷◌ w.word) e.words;
  touching = (hit, e.touching);
  gap = e.gap;
  in_range = e.in_range;
  shorter = omega (arith, e.shorter);
}

extend_lem :
    (prev_end : ℕ) (ws : List WordMatch)
    → prev_end < 2 ^ 32
    → All InRange ws
    → Extends prev_end ws (extend prev_end ws)
unfolding extend
extend_lem prev_end [] h r = record {
  more = [];
  split = refl;
  words = refl;
  touching = tt;
  gap = tt;
  in_range = tt;
  shorter = omega arith;
}
extend_lem prev_end (w ∷ ws) h r = elim (Bool-cases (gap_is_zero w.start prev_end)) [
  | inl hit ↦
      rw (hit, word_end_exact w r.0)
        (Extends-hit prev_end w ws _ ((gap_exact prev_end w h r.0).0 hit)
          (extend_lem (w.start + w.length) ws r.0 r.1))
  | inr miss ↦ rw miss (record {
    more = [];
    split = refl;
    words = refl;
    touching = tt;
    gap = λ same. absurd (cc (miss, (gap_exact prev_end w h r.0).1 same));
    in_range = r;
    shorter = omega arith;
  })
]

phrase_loop-Cuts :
    (fuel : ℕ) (ws : List WordMatch)
    → length ws ≤ fuel
    → All InRange ws
    → Cuts ws (phrase_loop fuel ws)
unfolding phrase_loop
phrase_loop-Cuts zero [] h r = done
phrase_loop-Cuts zero (w ∷ ws) h r = absurd (omega arith)
phrase_loop-Cuts (suc fuel) [] h r = done
phrase_loop-Cuts (suc fuel) (w ∷ ws) h r =
    rw (word_end_exact w r.0, e.words)
      (run w e.more _ (w ∷ ws) _ (ap (◌∷◌ w) e.split) e.touching e.gap
        (phrase_loop-Cuts fuel _ (omega (arith, e.shorter)) e.in_range))
  where
    e : Extends (w.start + w.length) ws (extend (w.start + w.length) ws)
    e = extend_lem (w.start + w.length) ws r.0 r.1

module _ {κ} (P : WordMatch → Type κ) where
  insert_by_start-All :
      (w : WordMatch) (ws : List WordMatch) → P w → All P ws → All P (insert_by_start w ws)
  unfolding insert_by_start
  insert_by_start-All w [] h r = (h, tt)
  insert_by_start-All w (v ∷ vs) h r = ground (arith, insert_by_start-All w vs h r.1)

  sort_by_start-All : (ws : List WordMatch) → All P ws → All P (sort_by_start ws)
  unfolding sort_by_start
  sort_by_start-All [] r = tt
  sort_by_start-All (w ∷ ws) r =
      insert_by_start-All w (sort_by_start ws) r.0 (sort_by_start-All ws r.1)

-- For words that end below 2^32, `process_words` returns the input in ascending order of start, with
-- no word lost or added, cut into maximal runs of touching words.
pub process_words-Cuts :
    (ws : List WordMatch)
    → All InRange ws
    → (sorted : List WordMatch) × Perm sorted ws
      × StartsFrom 0 sorted
      × Cuts sorted (process_words ws)
unfolding process_words
process_words-Cuts ws r = (
  sort_by_start ws,
  sort_by_start-perm ws,
  sort_by_start-StartsFrom ws,
  phrase_loop-Cuts _ (sort_by_start ws) (omega arith) (sort_by_start-All InRange ws r),
)

-- Two words whose starts and ends differ by exactly 2^32 make one phrase, although the second
-- starts 2^32 characters after the first one's end.
pub process_words-far :
    (w v : WordMatch)
    → w.start + w.length < 2 ^ 32
    → v.start ≡ w.start + w.length + 2 ^ 32
    → process_words (w ∷ v ∷ [])
      ≡ record { start_offset = w.start; words = w.word ∷ v.word ∷ [] } ∷ []
unfolding process_words phrase_loop extend
process_words-far w v h far =
    let hit : gap_is_zero v.start (word_end w) ≡ true = rw far (ground arith) in
    let ordered : StartsFrom 0 (w ∷ v ∷ []) = omega arith in
    rw (sort_by_start_id 0 (w ∷ v ∷ []) ordered, hit)
