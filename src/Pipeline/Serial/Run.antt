-- ===== src/Pipeline/Serial/Run.antt =====
-- What the serial run writes.
use native.Mathlib.Decide.{dec_lt}
use native.Mathlib.Nat.{mod-add-div'}
use pi_poetry.Base.{
  ℕ, ◌+◌, ◌*◌, ◌/◌, ◌%◌, ◌^◌, ◌≤◌, ◌<◌, ◌≡◌, refl, sym, ap, subst, ◌≢◌, ◌⊎◌, List, [], ◌∷◌, ◌++◌,
  length, arith, Option, none, some, All, concat, map, Bool-cases, inl, inr, ◌==◌, true,
}
use pi_poetry.Digits.{DigitSource, DigitMapper, SourceLaws, MapperLaws}
use pi_poetry.Finder.Word.{WordMatch}
use pi_poetry.Finder.Automaton.{AhoCorasick}
use pi_poetry.Finder.Automaton.Scan.{scan}
use pi_poetry.PhraseScanner.{
  PhraseMatch, Scanner, idle, feed, feed_pending, gap_is_zero, process_words,
  process_words_streaming, flush_streaming,
}
use pi_poetry.PhraseScanner.Sort.{StartsFrom}
use pi_poetry.PhraseScanner.Streaming.{stream_all, stream_all-eq-process_words}
use pi_poetry.Pipeline.Serial.{snapped, emit_sequences, written, run}
use pi_poetry.Pipeline.Serial.Loop.{letters_of, chunk_loop-letters_of}

snapped-groups :
    (chunk_size d : ℕ)
    → 0 < d
    → 0 < chunk_size
    → chunk_size + d ≤ 2 ^ 64
    → (k : ℕ) × (0 < k) × (snapped chunk_size d ≡ k * d)
unfolding snapped
snapped-groups c d hd hc fits = elim (Bool-cases (c % d == 0)) [
  | inl whole ↦
      let r : c % d ≡ 0 = ground arith in
      let e : c / d * d ≡ c = omega (arith, mod-add-div' c d) in
      (
        c / d,
        elim (dec_lt 0 (c / d)) [
          | yes h ↦ h
          | no h ↦
              let z : c / d ≡ 0 = omega arith in
              absurd (let w : c / d * d ≡ 0 = rw z (omega arith) in omega (arith, e))
        ],
        rw whole (sym e),
      )
  | inr part ↦
      let r : c % d ≢ 0 = λ z. ground arith in
      let e : (c / d + 1) * d ≡ c / d * d + d = omega arith in
      (c / d + 1, omega arith, rw (part, e) (omega (arith, mod-add-div' c d)))
]

==_refl : (n : ℕ) → n == n ≡ true
==_refl n = ground arith

-- A run over a source that holds some digits writes the letters of their whole groups, a newline, and
-- the phrases of the chains that a single `scan` of all these letters gives. So the chunk size, which
-- is snapped up to whole groups, changes nothing. The bases agree, a chunk is not empty and fits into
-- `size_t` when it is snapped, and the loop ends within one round more than there are digits.
pub run-scan :
    {S : Type 0} (source : DigitSource S) (rest : S → List ℕ) (mapper : DigitMapper)
    (ac : AhoCorasick) (fuel : ℕ) (s : S) (chunk_size : ℕ)
    → SourceLaws S source rest
    → MapperLaws mapper
    → source.base ≡ mapper.required_base
    → 0 < mapper.digits_per_char
    → 0 < chunk_size
    → chunk_size + mapper.digits_per_char ≤ 2 ^ 64
    → length (rest (source.reset s)) < fuel
    → run source mapper ac fuel s chunk_size ≡ (
        let letters = letters_of mapper (rest (source.reset s)) in
        written (letters ++ 10 ∷ []) (emit_sequences idle (scan ac letters 0)))
unfolding run scan
run-scan source rest mapper ac fuel s chunk reading mapping bases hd hc fits enough =
    let (k, positive, e) = snapped-groups chunk mapper.digits_per_char hd hc fits in
    rw
      (
        e,
        bases,
        ==_refl,
        chunk_loop-letters_of mapper mapping k hd positive source rest reading ac fuel
            (source.reset s) 0 0 enough,
      )
      refl

feed_pending-some :
    (o : Option PhraseMatch) (e : ℕ) (w : WordMatch)
    → (p : PhraseMatch) × ((feed_pending o e w).0.pending_phrase ≡ some p)
feed_pending-some none e w = (_, refl)
feed_pending-some (some p) e w = elim (Bool-cases (gap_is_zero w.start e)) [
  | inl hit ↦ rw hit (_, refl)
  | inr miss ↦ rw miss (_, refl)
]

flush-idle :
    (s : Scanner) (ws : List WordMatch)
    → (s ≡ idle) ⊎ ((p : PhraseMatch) × (s.pending_phrase ≡ some p))
    → (flush_streaming (process_words_streaming s ws).0).0 ≡ idle
unfolding flush_streaming process_words_streaming feed
flush-idle s [] (inl e) = subst (λ t. (flush_streaming t).0 ≡ idle) (sym e) refl
flush-idle s [] (inr (p, e)) = rw e refl
flush-idle s (w ∷ ws) h =
    flush-idle (feed s w).0 ws (inr (feed_pending-some s.pending_phrase s.pending_end w))

-- Each chain whose words ascend by start is emitted as the batch scanner cuts it on its own: a phrase
-- never continues from one chain into the next.
pub emit_sequences-eq-process_words :
    (chains : List (List WordMatch))
    → All (StartsFrom 0) chains
    → emit_sequences idle chains ≡ concat (map process_words chains)
unfolding emit_sequences stream_all
emit_sequences-eq-process_words [] h = refl
emit_sequences-eq-process_words (chain ∷ chains) (h, hs) =
    rw (flush-idle idle chain (inl refl), emit_sequences-eq-process_words chains hs)
      (ap (λ ps. ps ++ concat (map process_words chains)) (stream_all-eq-process_words chain h))
