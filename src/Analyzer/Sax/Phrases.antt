-- ===== src/Analyzer/Sax/Phrases.antt =====
-- The handler finds the phrases of a document.
use mathlib.Core.List.{append-nil}
use pi_poetry.Base.{
  ◌≡◌, ◌⊎◌, inl, inr, refl, sym, ap, ◌∙◌, Bool, true, false, Bool-cases, none, List, [], ◌∷◌, ◌++◌,
  append_assoc, arith, Bytes, bytes, bytes_eq, bytes_eq→eq,
}
use pi_poetry.Analyzer.Stats.{Phrase}
use pi_poetry.Analyzer.Sax.{
  Scalar, null, number_integer, number_float, boolean, number_unsigned, string, Event, scalar, key,
  start_object, end_object, start_array, end_array, PhraseStreamHandler, on_scalar, handle, run,
}
use pi_poetry.Analyzer.Sax.Document.{
  Json, plain, array, object, Items, no_items, item, Members, no_members, member, events,
  item_events, member_events, direct_word, direct_words, set_offset, add_words, add_member,
  phrase_from,
}
use pi_poetry.Analyzer.Sax.Pieces.{run-then, run-first, run-one, state, Rekeyed, Passes}
use pi_poetry.Analyzer.Sax.Skipped.{skipping, skip_items, skip_members}

pub Rekeyed-nil : (k : Bytes) → Rekeyed [] k → k ≡ []
Rekeyed-nil k (inl e) = e
Rekeyed-nil k (inr e) = e

module _ (saw : Bool) where
  abbrev pub in_words : Phrase → PhraseStreamHandler
  in_words p = state 4 true true true saw [] none p

  abbrev pub in_phrase : Bytes → Phrase → PhraseStreamHandler
  in_phrase k p = state 3 true true false saw k none p

  -- In the array of words, a value that is not a string adds nothing.
  no_word : (p : Phrase) → in_words (record p { words = p.words ++ [] }) ≡ in_words p
  no_word p = ap (λ ws. in_words (record p { words = ws })) (append-nil p.words)

  word_skipped :
      (p : Phrase) (first last : Event) (es : List Event)
      → handle (in_words p) first ≡ (skipping 5 (omega arith) true true saw p 5 [], [])
      → Passes (skipping 5 (omega arith) true true saw p 5) [] es
      → ((k : Bytes)
          → k ≡ []
          → handle (skipping 5 (omega arith) true true saw p 5 k) last ≡ (in_words p, []))
      → run (in_words p) (first ∷ (es ++ (last ∷ [])))
        ≡ (in_words (record p { words = p.words ++ [] }), [])
  word_skipped p first last es enter (k, r, e) leave =
      let inner = skipping 5 (omega arith) true true saw p 5 in
      run-first (in_words p) first (es ++ (last ∷ [])) (inner []) (in_words p) [] [] enter (
        run-then (inner []) es (last ∷ []) (inner k) (in_words p) [] [] e
          (run-one (inner k) last (in_words p) [] (leave k (Rekeyed-nil k r))))
      ∙ ap (λ h. (h, [])) (sym (no_word p))

  word_item :
      (v : Json) (p : Phrase)
      → run (in_words p) (events v) ≡ (in_words (record p { words = p.words ++ direct_word v }), [])
  unfolding run handle events
  word_item (plain null) p = ap (λ h. (h, [])) (sym (no_word p))
  word_item (plain number_integer) p = ap (λ h. (h, [])) (sym (no_word p))
  word_item (plain number_float) p = ap (λ h. (h, [])) (sym (no_word p))
  word_item (plain (boolean val)) p = ap (λ h. (h, [])) (sym (no_word p))
  word_item (plain (number_unsigned val)) p = ap (λ h. (h, [])) (sym (no_word p))
  word_item (plain (string val)) p = refl
  word_item (array items) p =
      word_skipped p start_array end_array (item_events items) refl
        (skip_items 5 (omega arith) true true saw p items 5 [] (omega arith)) (λ k e. rw e refl)
  word_item (object members) p =
      word_skipped p start_object end_object (member_events members) refl
        (skip_members 5 (omega arith) true true saw p members 5 [] (omega arith)) (λ k e. rw e refl)

  word_items :
      (items : Items) (p : Phrase)
      → run (in_words p) (item_events items)
        ≡ (in_words (record p { words = p.words ++ direct_words items }), [])
  unfolding run item_events
  word_items no_items p = ap (λ h. (h, [])) (sym (no_word p))
  word_items (item v rest) p =
      let p' = record p { words = p.words ++ direct_word v } in
      run-then (in_words p) (events v) (item_events rest) (in_words p')
        (in_words (record p' { words = p'.words ++ direct_words rest })) [] [] (word_item v p)
        (word_items rest p')
      ∙ ap (λ ws. (in_words (record p { words = ws }), []))
          (append_assoc p.words (direct_word v) (direct_words rest))

  -- A state of the phrase's object with the phrase `p`.
  abbrev Gives : Bytes → Phrase → List Event → Phrase → Type 0
  Gives k p es p' = (k' : Bytes) × (run (in_phrase k p) es ≡ (in_phrase k' p', []))

  phrase_skipped :
      (k : Bytes) (p : Phrase) (first last : Event) (es : List Event)
      → handle (in_phrase k p) first ≡ (skipping 4 (omega arith) true false saw p 4 k, [])
      → Passes (skipping 4 (omega arith) true false saw p 4) k es
      → ((k' : Bytes)
          → handle (skipping 4 (omega arith) true false saw p 4 k') last ≡ (in_phrase k' p, []))
      → Gives k p (first ∷ (es ++ (last ∷ []))) p
  phrase_skipped k p first last es enter (k', r, e) leave =
      let inner = skipping 4 (omega arith) true false saw p 4 in
      (
        k',
        run-first (in_phrase k p) first (es ++ (last ∷ [])) (inner k) (in_phrase k' p) [] [] enter (
            run-then (inner k) es (last ∷ []) (inner k') (in_phrase k' p) [] [] e
              (run-one (inner k') last (in_phrase k' p) [] (leave k'))),
      )

  -- A member that is no offset and no array of words changes nothing.
  other_member :
      (name : Bytes) (v : Json) (p : Phrase)
      → set_offset v p ≡ p
      → (bytes_eq name (bytes "words") ≡ false) ⊎ (add_words v p ≡ p)
      → add_member name v p ≡ p
  other_member name v p e f = elim (Bool-cases (bytes_eq name (bytes "start_offset"))) [
    | inl offset ↦ rw offset e
    | inr no_offset ↦ elim (Bool-cases (bytes_eq name (bytes "words"))) [
      | inl words ↦ elim f [
        | inl not_words ↦ absurd (cc (words, not_words))
        | inr same ↦ rw (no_offset, words) same
      ]
      | inr no_words ↦ rw (no_offset, no_words) refl
    ]
  ]

  unchanged :
      (name : Bytes) (v : Json) (p : Phrase) (k : Bytes)
      → set_offset v p ≡ p
      → (bytes_eq name (bytes "words") ≡ false) ⊎ (add_words v p ≡ p)
      → Gives k p (events v) p
      → Gives k p (events v) (add_member name v p)
  unchanged name v p k e f (k', g) =
      (k', g ∙ ap (λ q. (in_phrase k' q, [])) (sym (other_member name v p e f)))

  -- A member's value.
  phrase_scalar :
      (name : Bytes) (s : Scalar) (p : Phrase)
      → Gives name p (scalar s ∷ []) (add_member name (plain s) p)
  unfolding run handle events
  phrase_scalar name null p = unchanged name (plain null) p name refl (inr refl) (name, refl)
  phrase_scalar name number_integer p =
      unchanged name (plain number_integer) p name refl (inr refl) (name, refl)
  phrase_scalar name number_float p =
      unchanged name (plain number_float) p name refl (inr refl) (name, refl)
  phrase_scalar name (boolean val) p =
      unchanged name (plain (boolean val)) p name refl (inr refl) (name, refl)
  phrase_scalar name (string val) p =
      unchanged name (plain (string val)) p name refl (inr refl) ([], refl)
  phrase_scalar name (number_unsigned val) p =
      elim (Bool-cases (bytes_eq name (bytes "start_offset"))) [
        | inl offset ↦ ([], rw (offset, on_scalar) refl)
        | inr other ↦ (
          [],
          rw (other, on_scalar)
              (elim (Bool-cases (bytes_eq name (bytes "words"))) [
                | inl words ↦ rw words refl
                | inr no_words ↦ rw no_words refl
              ]),
        )
      ]

  words_value :
      (name : Bytes) (items : Items) (p : Phrase)
      → bytes_eq name (bytes "words") ≡ true
      → Gives name p (events (array items)) (add_member name (array items) p)
  unfolding handle events
  words_value name items p words =
      let is : name ≡ bytes "words" = bytes_eq→eq name (bytes "words") words in
      let no_offset : bytes_eq name (bytes "start_offset") ≡ false =
        ap (λ n. bytes_eq n (bytes "start_offset")) is in
      let p' = record p { words = p.words ++ direct_words items } in
      let added : add_member name (array items) p ≡ p' = rw (no_offset, words) refl in
      (
        [],
        run-first (in_phrase name p) start_array (item_events items ++ (end_array ∷ []))
              (in_words p) (in_phrase [] p') [] [] (rw words refl)
              (run-then (in_words p) (item_events items) (end_array ∷ []) (in_words p')
                (in_phrase [] p') [] [] (word_items items p)
                (run-one (in_words p') end_array (in_phrase [] p') [] refl))
            ∙ ap (λ q. (in_phrase [] q, [])) (sym added),
      )

  phrase_value :
      (name : Bytes) (v : Json) (p : Phrase) → Gives name p (events v) (add_member name v p)
  unfolding handle events
  phrase_value name (plain s) p = phrase_scalar name s p
  phrase_value name (array items) p = elim (Bool-cases (bytes_eq name (bytes "words"))) [
    | inl words ↦ words_value name items p words
    | inr other ↦ unchanged name (array items) p name refl (inl other) (
        phrase_skipped name p start_array end_array (item_events items) (rw other refl)
          (skip_items 4 (omega arith) true false saw p items 4 name (omega arith)) (λ k. refl))
  ]
  phrase_value name (object members) p = unchanged name (object members) p name refl (inr refl) (
      phrase_skipped name p start_object end_object (member_events members) refl
        (skip_members 4 (omega arith) true false saw p members 4 name (omega arith)) (λ k. refl))

  pub phrase_members :
      (members : Members) (k : Bytes) (p : Phrase)
      → Gives k p (member_events members) (phrase_from p members)
  unfolding run handle member_events
  phrase_members no_members k p = (k, refl)
  phrase_members (member name v rest) k p =
      let p' = add_member name v p in
      let (k1, e1) = phrase_value name v p in
      let (k2, e2) = phrase_members rest k1 p' in
      (
        k2,
        run-first (in_phrase k p) (key name) (events v ++ member_events rest) (in_phrase name p)
            (in_phrase k2 (phrase_from p' rest)) [] [] refl
            (run-then (in_phrase name p) (events v) (member_events rest) (in_phrase k1 p')
              (in_phrase k2 (phrase_from p' rest)) [] [] e1 e2),
      )
