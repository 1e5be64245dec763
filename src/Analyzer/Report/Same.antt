-- ===== src/Analyzer/Report/Same.antt =====
-- The statistics of the merged accumulators are those of one accumulator.
use pi_poetry.Base.{
  ℕ, ◌≡◌, inl, inr, refl, sym, ap, ◌∙◌, false, none, some, List, [], ◌∷◌, length, Bytes, bytes_eq,
  bytes_eq→eq, bytes_eq_refl, Bool-cases, concat, add64,
}
use pi_poetry.Base.Lists.{Has}
use pi_poetry.Base.Map.{Map-ext}
use mathlib.Core.Option.{some-ne-none}
use pi_poetry.Analyzer.Stats.{
  Phrase, WordMap, Stats, empty, find_word, offer, offer_words, offer_all, add_phrase, add_phrases,
  merge, merge_all,
}
use pi_poetry.Analyzer.Stats.Offsets.{find_word-offer}
use pi_poetry.Analyzer.Stats.Merge.{
  part_stats, empty-Shows, add_phrases-Shows, merge_all-Shows, merge_all-eq-add_phrases,
}
use pi_poetry.Analyzer.Report.{sort_occurrences, write_statistics}
use pi_poetry.Analyzer.Report.Sorting.{
  IsDistinct, IsSorted-unique, sort_occurrences-members, sort_occurrences-IsSorted,
}

-- One entry for each word.
abbrev pub IsKeyed : WordMap → Type 0
IsKeyed [] = Unit
IsKeyed (e ∷ m) = (find_word e.0 m ≡ none) × IsKeyed m

offer-IsKeyed : (w : Bytes) (o : ℕ) (m : WordMap) → IsKeyed m → IsKeyed (offer w o m)
unfolding offer find_word
offer-IsKeyed w o [] k = (refl, tt)
offer-IsKeyed w o ((v, old) ∷ m) k = elim (Bool-cases (bytes_eq v w)) [
  | inl same ↦ rw same k
  | inr other ↦
      let sym_other : bytes_eq w v ≡ false = elim (Bool-cases (bytes_eq w v)) [
        | inl e ↦ let f = bytes_eq→eq w v e in let g = bytes_eq_refl v in cc
        | inr e ↦ e
      ] in
      rw other (find_word-offer w v o m ∙ rw (k.0, sym_other) refl, offer-IsKeyed w o m k.1)
]

offer_words-IsKeyed :
    (offset : ℕ) (words : List Bytes) (m : WordMap)
    → IsKeyed m
    → IsKeyed (offer_words offset words m)
unfolding offer_words
offer_words-IsKeyed offset [] m k = k
offer_words-IsKeyed offset (w ∷ words) m k =
    offer_words-IsKeyed (add64 offset (length w)) words (offer w offset m)
      (offer-IsKeyed w offset m k)

add_phrases-IsKeyed :
    (s : Stats) (ps : List Phrase)
    → IsKeyed s.min_offset_per_word
    → IsKeyed (add_phrases s ps).min_offset_per_word
unfolding add_phrases add_phrase
add_phrases-IsKeyed s [] k = k
add_phrases-IsKeyed s (p ∷ ps) k =
    add_phrases-IsKeyed (add_phrase s p) ps
      (offer_words-IsKeyed p.start_offset p.words s.min_offset_per_word k)

offer_all-IsKeyed : (m other : WordMap) → IsKeyed m → IsKeyed (offer_all m other)
unfolding offer_all
offer_all-IsKeyed m [] k = k
offer_all-IsKeyed m ((w, o) ∷ other) k =
    offer_all-IsKeyed (offer w o m) other (offer-IsKeyed w o m k)

merge_all-IsKeyed :
    (s : Stats) (parts : List Stats)
    → IsKeyed s.min_offset_per_word
    → IsKeyed (merge_all s parts).min_offset_per_word
unfolding merge_all merge
merge_all-IsKeyed s [] k = k
merge_all-IsKeyed s (t ∷ parts) k =
    merge_all-IsKeyed (merge s t) parts
      (offer_all-IsKeyed s.min_offset_per_word t.min_offset_per_word k)

-- The entries of a map are what a lookup finds.
Has-find_word : (w : Bytes) (o : ℕ) (m : WordMap) → find_word w m ≡ some o → Has (w, o) m
unfolding find_word
Has-find_word w o [] h = absurd (some-ne-none _ (sym h))
Has-find_word w o ((v, p) ∷ m) h = elim (Bool-cases (bytes_eq v w)) [
  | inl same ↦
      let found : some p ≡ some o = rw same at h in
      let offset : o ≡ p = cc in
      inl (ap (λ w. (w, o)) (sym (bytes_eq→eq v w same)) ∙ ap (λ o. (v, o)) offset)
  | inr other ↦ inr (Has-find_word w o m (rw other at h))
]

find_word-Has : (e : Bytes × ℕ) (m : WordMap) → IsKeyed m → Has e m → find_word e.0 m ≡ some e.1
unfolding find_word
find_word-Has e [] k h = absurd h
find_word-Has e (f ∷ m) k (inl same) = rw (same, bytes_eq_refl f.0) refl
find_word-Has e (f ∷ m) k (inr h) = elim (Bool-cases (bytes_eq f.0 e.0)) [
  | inl same ↦
      let word = bytes_eq→eq f.0 e.0 same in
      absurd
        (some-ne-none _ (sym (find_word-Has e m k.1 h) ∙ ap (λ w. find_word w m) (sym word) ∙ k.0))
  | inr other ↦ rw other (find_word-Has e m k.1 h)
]

IsKeyed-IsDistinct : (m : WordMap) → IsKeyed m → IsDistinct m
IsKeyed-IsDistinct [] k = tt
IsKeyed-IsDistinct (e ∷ m) k =
    (λ h. some-ne-none _ (sym (find_word-Has e m k.1 h) ∙ k.0), IsKeyed-IsDistinct m k.1)

sub_members :
    (m n : WordMap)
    → IsKeyed m
    → ((w : Bytes) → find_word w m ≡ find_word w n)
    → (e : Bytes × ℕ) → Has e m
    → Has e n
sub_members m n k same e h = Has-find_word e.0 e.1 n (sym (same e.0) ∙ find_word-Has e m k h)

sort_occurrences-same :
    (m n : WordMap)
    → IsKeyed m
    → IsKeyed n
    → ((w : Bytes) → find_word w m ≡ find_word w n)
    → sort_occurrences m ≡ sort_occurrences n
sort_occurrences-same m n k l same =
    IsSorted-unique (sort_occurrences m) (sort_occurrences n)
      (sort_occurrences-IsSorted m (IsKeyed-IsDistinct m k))
      (sort_occurrences-IsSorted n (IsKeyed-IsDistinct n l))
      (λ e. (
        λ h.
            (sort_occurrences-members n e).1
              (sub_members m n k same e ((sort_occurrences-members m e).0 h)),
        λ h.
            (sort_occurrences-members m e).1
              (sub_members n m l (λ w. sym (same w)) e ((sort_occurrences-members n e).0 h)),
      ))

-- However the phrases are shared out among accumulators, in parts that keep their order, the merged
-- accumulator's statistics.txt is, byte for byte, that of one accumulator over all phrases.
pub write_statistics-merge_all :
    (parts : List (List Phrase))
    → write_statistics (merge_all empty (part_stats parts))
      ≡ write_statistics (add_phrases empty (concat parts))
unfolding write_statistics
write_statistics-merge_all parts =
    let merged : Stats = merge_all empty (part_stats parts) in
    let whole : Stats = add_phrases empty (concat parts) in
    let (counts, words) = merge_all-eq-add_phrases parts in
    let v = merge_all-Shows empty [] parts empty-Shows in
    let u = add_phrases-Shows empty [] (concat parts) empty-Shows in
    let same_counts : merged.length_counts ≡ whole.length_counts =
      Map-ext 0 merged.length_counts whole.length_counts v.sorted u.sorted counts in
    let same_words : sort_occurrences merged.min_offset_per_word
        ≡ sort_occurrences whole.min_offset_per_word =
      sort_occurrences-same merged.min_offset_per_word whole.min_offset_per_word
        (merge_all-IsKeyed empty (part_stats parts) tt)
        (add_phrases-IsKeyed empty (concat parts) tt) words in
    rw (same_counts, same_words) refl
