-- ===== src/PhraseScanner/Streaming.antt =====
-- The streaming scanner against the batch scanner.
use pi_poetry.Base.{
  ℕ, zero, suc, ◌≤◌, ◌≡◌, refl, ap, ◌∙◌, List, [], ◌∷◌, ◌++◌, arith, length, Bool-cases, inl, inr,
  append_assoc, append-nil, some, concat, sym,
}
use pi_poetry.Finder.Word.{WordMatch}
use pi_poetry.PhraseScanner.Sort.{StartsFrom, sort_by_start_id}
use pi_poetry.PhraseScanner.{
  PhraseMatch, Scanner, idle, word_end, gap_is_zero, extend, phrase_loop, process_words, feed,
  process_words_streaming, flush_streaming,
}

-- The phrases that the callback has seen after a batch and the flush that follows it.
unfoldable pub stream_all : Scanner → List WordMatch → List PhraseMatch
stream_all s batch =
    let (s', out) = process_words_streaming s batch in out ++ (flush_streaming s').1

-- A batch in two parts is fed as the two parts, one after the other.
process_words_streaming-append :
    (s : Scanner) (xs ys : List WordMatch)
    → process_words_streaming s (xs ++ ys) ≡ (
        let (s', out) = process_words_streaming s xs in
        let (s'', more) = process_words_streaming s' ys in (s'', out ++ more))
unfolding process_words_streaming
process_words_streaming-append s [] ys = refl
process_words_streaming-append s (x ∷ xs) ys =
    rw (process_words_streaming-append (feed s x).0 xs ys) (simp append_assoc)

phrase_loop-nil : (fuel : ℕ) → phrase_loop fuel [] ≡ []
unfolding phrase_loop
phrase_loop-nil zero = refl
phrase_loop-nil (suc fuel) = refl

stream_all-cons :
    (s : Scanner) (w : WordMatch) (ws : List WordMatch)
    → stream_all s (w ∷ ws) ≡ (feed s w).1 ++ stream_all (feed s w).0 ws
unfolding stream_all process_words_streaming
stream_all-cons s w ws = append_assoc (feed s w).1 _ _

abbrev in_progress : PhraseMatch → ℕ → Scanner
in_progress p prev_end = record { pending_phrase = some p; pending_end = prev_end }

-- One word of `stream_pending`, whether it extends the phrase or starts a new one.
stream_step :
    (fuel : ℕ) (p : PhraseMatch) (prev_end : ℕ) (w : WordMatch) (ws : List WordMatch)
    → stream_all
        (in_progress
          (record { start_offset = p.start_offset; words = p.words ++ w.word ∷ [] })
          (word_end w))
        ws
      ≡ record {
        start_offset = p.start_offset;
        words = (p.words ++ w.word ∷ []) ++ (extend (word_end w) ws).0;
      }
        ∷ phrase_loop (suc fuel) (extend (word_end w) ws).1
    → stream_all
        (in_progress (record { start_offset = w.start; words = w.word ∷ [] }) (word_end w))
        ws
      ≡ record { start_offset = w.start; words = w.word ∷ (extend (word_end w) ws).0 }
        ∷ phrase_loop fuel (extend (word_end w) ws).1
    → (feed (in_progress p prev_end) w).1 ++ stream_all (feed (in_progress p prev_end) w).0 ws
      ≡ record { start_offset = p.start_offset; words = p.words ++ (extend prev_end (w ∷ ws)).0 }
        ∷ phrase_loop (suc fuel) (extend prev_end (w ∷ ws)).1
unfolding extend phrase_loop feed
stream_step fuel p prev_end w ws extended started =
    elim (Bool-cases (gap_is_zero w.start prev_end)) [
      | inl hit ↦ rw hit (extended ∙ rw append_assoc)
      | inr miss ↦ rw (miss, append-nil) (ap (◌∷◌ p) started)
    ]

-- With a phrase in progress, streaming emits it extended, and then what the loop finds.
stream_pending :
    (fuel : ℕ) (p : PhraseMatch) (prev_end : ℕ) (ws : List WordMatch)
    → length ws ≤ fuel
    → stream_all (in_progress p prev_end) ws
      ≡ record { start_offset = p.start_offset; words = p.words ++ (extend prev_end ws).0 }
        ∷ phrase_loop fuel (extend prev_end ws).1
unfolding stream_all process_words_streaming flush_streaming extend
stream_pending fuel p prev_end [] h = rw (append-nil, phrase_loop-nil)
stream_pending zero p prev_end (w ∷ ws) h = absurd (omega arith)
stream_pending (suc fuel) p prev_end (w ∷ ws) h =
    stream_all-cons (in_progress p prev_end) w ws
    ∙ stream_step fuel p prev_end w ws
        (stream_pending (suc fuel)
          (record { start_offset = p.start_offset; words = p.words ++ w.word ∷ [] }) (word_end w) ws
          (omega arith))
        (stream_pending fuel (record { start_offset = w.start; words = w.word ∷ [] }) (word_end w)
          ws (omega arith))

stream_loop : (ws : List WordMatch) → stream_all idle ws ≡ phrase_loop (length ws) ws
unfolding stream_all process_words_streaming flush_streaming phrase_loop feed
stream_loop [] = refl
stream_loop (w ∷ ws) =
    stream_all-cons idle w ws
    ∙ stream_pending (length ws) (record { start_offset = w.start; words = w.word ∷ [] })
        (word_end w) ws (omega arith)

pub stream_all-eq-process_words :
    (batch : List WordMatch) → StartsFrom 0 batch → stream_all idle batch ≡ process_words batch
unfolding process_words
stream_all-eq-process_words batch f = rw (sort_by_start_id 0 batch f) (stream_loop batch)

-- The phrases that the callback has seen after batches fed one after the other, and the flush.
unfoldable pub stream_batches : Scanner → List (List WordMatch) → List PhraseMatch
stream_batches s [] = (flush_streaming s).1
stream_batches s (batch ∷ batches) =
    let (s', out) = process_words_streaming s batch in out ++ stream_batches s' batches

stream_all-append :
    (s : Scanner) (xs ys : List WordMatch)
    → stream_all s (xs ++ ys)
      ≡ (let (s', out) = process_words_streaming s xs in out ++ stream_all s' ys)
unfolding stream_all
stream_all-append s xs ys = rw (process_words_streaming-append s xs ys) (simp append_assoc)

stream_batches-eq-stream_all :
    (s : Scanner) (batches : List (List WordMatch))
    → stream_batches s batches ≡ stream_all s (concat batches)
unfolding stream_batches stream_all process_words_streaming
stream_batches-eq-stream_all s [] = refl
stream_batches-eq-stream_all s (batch ∷ batches) =
    let (s', out) = process_words_streaming s batch in
    ap (◌++◌ out) (stream_batches-eq-stream_all s' batches)
    ∙ sym (stream_all-append s batch (concat batches))

-- However words in ascending order of start are cut into batches, also into empty ones, the idle
-- streaming scanner, fed the batches one after the other and then flushed, emits exactly the
-- phrases that the batch scanner returns for all the words at once.
pub stream_batches-eq-process_words :
    (batches : List (List WordMatch))
    → StartsFrom 0 (concat batches)
    → stream_batches idle batches ≡ process_words (concat batches)
stream_batches-eq-process_words batches ascending =
    stream_batches-eq-stream_all idle batches
    ∙ stream_all-eq-process_words (concat batches) ascending
