-- ===== src/Analyzer/Stats/Merge.antt =====
-- The statistics of the phrases, however they are shared out among the threads.
use pi_poetry.Base.{
  ℕ, ◌≡◌, refl, sym, ap, ◌∙◌, Bytes, List, [], ◌∷◌, ◌++◌, append-nil, append_assoc, arith, length,
  concat, map,
}
use pi_poetry.Base.Map.{find, From, insert-From}
use pi_poetry.Analyzer.Stats.{
  Phrase, Stats, empty, find_word, add_phrase, add_phrases, merge, merge_all,
}
use pi_poetry.Analyzer.Stats.Counts.{
  number_of, counted, number_of-append, find-count_insert, find-add_counts, add_counts-From,
}
use pi_poetry.Analyzer.Stats.Offsets.{
  places, all_places, smallest, smallest-append, find_word-offer_words, IsConsistent,
  offer_words-IsConsistent, offer_all-IsConsistent, find_word-merge,
}

-- The accumulator holds the statistics of the phrases `ps`.
pub record Shows (s : Stats) (ps : List Phrase) : Type 0 where
  pub sorted : From 0 s.length_counts
  pub counts : (len : ℕ) → find len s.length_counts ≡ counted (number_of len ps)
  pub offsets : (w : Bytes) → find_word w s.min_offset_per_word ≡ smallest w (all_places ps)
  pub consistent : IsConsistent s.min_offset_per_word

pub empty-Shows : Shows empty []
unfolding find find_word
empty-Shows = record {
  sorted = tt;
  counts = λ len. refl;
  offsets = λ w. refl;
  consistent = λ w. refl;
}

all_places-append : (ps qs : List Phrase) → all_places (ps ++ qs) ≡ all_places ps ++ all_places qs
all_places-append [] qs = refl
all_places-append (p ∷ ps) qs = rw (all_places-append ps qs, append_assoc)

add_phrase-Shows :
    (s : Stats) (p : Phrase) (ps : List Phrase) → Shows s ps → Shows (add_phrase s p) (ps ++ p ∷ [])
unfolding add_phrase
add_phrase-Shows s p ps v = record {
  sorted = insert-From _ 0 _ s.length_counts v.sorted (omega arith);
  counts = λ len.
      find-count_insert (length p.words) len (number_of len ps) s.length_counts v.sorted
        (v.counts len)
      ∙ ap counted (omega (arith, number_of-append len ps (p ∷ [])));
  offsets = λ w.
      find_word-offer_words w p.start_offset p.words s.min_offset_per_word
      ∙ rw (
        v.offsets w,
        all_places-append ps (p ∷ []),
        append-nil (places p.start_offset p.words),
        smallest-append w (all_places ps) (places p.start_offset p.words),
      );
  consistent = offer_words-IsConsistent p.start_offset p.words s.min_offset_per_word v.consistent;
}

pub add_phrases-Shows :
    (s : Stats) (ps qs : List Phrase) → Shows s ps → Shows (add_phrases s qs) (ps ++ qs)
unfolding add_phrases
add_phrases-Shows s ps [] v = rw append-nil v
add_phrases-Shows s ps (q ∷ qs) v =
    rw append_assoc at
      (add_phrases-Shows (add_phrase s q) (ps ++ q ∷ []) qs (add_phrase-Shows s q ps v))

merge-Shows :
    (s t : Stats) (ps qs : List Phrase) → Shows s ps → Shows t qs → Shows (merge s t) (ps ++ qs)
unfolding merge
merge-Shows s t ps qs v u = record {
  sorted = add_counts-From 0 s.length_counts t.length_counts v.sorted;
  counts = λ len.
      find-add_counts len (number_of len ps) (number_of len qs) 0 s.length_counts t.length_counts
        v.sorted u.sorted (v.counts len) (u.counts len)
      ∙ ap counted (sym (number_of-append len ps qs));
  offsets = λ w.
      find_word-merge w s.min_offset_per_word t.min_offset_per_word u.consistent
      ∙ rw (
        v.offsets w,
        u.offsets w,
        all_places-append ps qs,
        smallest-append w (all_places ps) (all_places qs),
      );
  consistent = offer_all-IsConsistent s.min_offset_per_word t.min_offset_per_word v.consistent;
}

-- One thread's accumulator.
abbrev pub part_stats : List (List Phrase) → List Stats
part_stats = map (add_phrases empty)

pub merge_all-Shows :
    (s : Stats) (ps : List Phrase) (parts : List (List Phrase))
    → Shows s ps
    → Shows (merge_all s (part_stats parts)) (ps ++ concat parts)
unfolding merge_all
merge_all-Shows s ps [] v = rw append-nil v
merge_all-Shows s ps (part ∷ parts) v = rw append_assoc at (
    merge_all-Shows (merge s (add_phrases empty part)) (ps ++ part) parts (
      merge-Shows s (add_phrases empty part) ps part v
        (add_phrases-Shows empty [] part empty-Shows)))

-- One accumulator over all phrases: it counts the phrases of each length, modulo 2^64, with an entry
-- exactly for the lengths that occur, and has for each word the smallest offset at which a phrase has
-- it, and no other word.
pub add_phrases-exact :
    (ps : List Phrase)
    → ((len : ℕ) → find len (add_phrases empty ps).length_counts ≡ counted (number_of len ps))
      × ((w : Bytes)
          → find_word w (add_phrases empty ps).min_offset_per_word ≡ smallest w (all_places ps))
add_phrases-exact ps = let v = add_phrases-Shows empty [] ps empty-Shows in (v.counts, v.offsets)

-- However the phrases are shared out among accumulators, in parts that keep their order, the merged
-- accumulator has the same counts and the same smallest offsets as one accumulator over all phrases.
pub merge_all-eq-add_phrases :
    (parts : List (List Phrase))
    → ((len : ℕ)
        → find len (merge_all empty (part_stats parts)).length_counts
          ≡ find len (add_phrases empty (concat parts)).length_counts)
      × ((w : Bytes)
          → find_word w (merge_all empty (part_stats parts)).min_offset_per_word
            ≡ find_word w (add_phrases empty (concat parts)).min_offset_per_word)
merge_all-eq-add_phrases parts =
    let v = merge_all-Shows empty [] parts empty-Shows in
    let u = add_phrases-Shows empty [] (concat parts) empty-Shows in
    (λ len. v.counts len ∙ sym (u.counts len), λ w. v.offsets w ∙ sym (u.offsets w))
