-- ===== src/Analyzer/Sax/Whole.antt =====
-- The handler on a whole document.
use mathlib.Core.List.{append-nil}
use pi_poetry.Base.{
  ◌≡◌, inl, inr, refl, sym, ap, ◌∙◌, Bool, true, false, ◌||◌, Bool-cases, none, List, [], ◌∷◌, ◌++◌,
  arith, Bytes, bytes, bytes_eq,
}
use pi_poetry.Analyzer.Stats.{Phrase}
use pi_poetry.Analyzer.Sax.{
  Event, scalar, key, start_object, end_object, start_array, end_array, PhraseStreamHandler,
  no_phrase, constructed, handle, run,
}
use pi_poetry.Analyzer.Sax.Document.{
  Json, plain, array, object, Items, no_items, item, Members, no_members, member, events,
  item_events, member_events, phrase_from, phrase_of, phrases_in, phrases_under, member_phrases,
  phrases, is_phrases, member_has_phrases, has_phrases,
}
use pi_poetry.Analyzer.Sax.Pieces.{run-then, run-first, run-one, state, Passes, Passes-inside}
use pi_poetry.Analyzer.Sax.Outside.{outside, calm_scalar, Calm-items, Calm-members}
use pi_poetry.Analyzer.Sax.Phrases.{in_phrase, phrase_members, Rekeyed-nil}

-- In the array of the phrases.
abbrev in_array : Phrase → Bytes → PhraseStreamHandler
in_array p k = state 2 true false false true k none p

abbrev Emits : Phrase → Bytes → List Event → List Phrase → Type 0
Emits p k es ps = (p' : Phrase) × (k' : Bytes) × (run (in_array p k) es ≡ (in_array p' k', ps))

array_item : (v : Json) (p : Phrase) (k : Bytes) → Emits p k (events v) (phrase_of v)
unfolding handle events
array_item (plain s) p k = let (k', r, e) = calm_scalar true true p s 2 k in (p, k', e)
array_item (array items) p k =
    let (k', r, e) =
      Passes-inside (in_array p) (outside true true p 3) k start_array end_array (item_events items)
        refl (Calm-items true true p items 3 k (omega arith, inr (omega arith))) (λ k'. refl) in
    (p, k', e)
array_item (object members) p k =
    let (k', e) = phrase_members true members k no_phrase in
    let found = phrase_from no_phrase members in
    let last : PhraseStreamHandler = in_array found k' in
    (
      found,
      k',
      run-first (in_array p k) start_object (member_events members ++ (end_object ∷ []))
          (in_phrase true k no_phrase) last [] (found ∷ []) refl
          (run-then (in_phrase true k no_phrase) (member_events members) (end_object ∷ [])
            (in_phrase true k' found) last [] (found ∷ []) e
            (run-one (in_phrase true k' found) end_object last (found ∷ []) refl)),
    )

array_items :
    (items : Items) (p : Phrase) (k : Bytes) → Emits p k (item_events items) (phrases_in items)
unfolding run item_events
array_items no_items p k = (p, k, refl)
array_items (item v rest) p k =
    let (p1, k1, e1) = array_item v p k in
    let (p2, k2, e2) = array_items rest p1 k1 in
    (
      p2,
      k2,
      run-then (in_array p k) (events v) (item_events rest) (in_array p1 k1) (in_array p2 k2)
          (phrase_of v) (phrases_in rest) e1 e2,
    )

-- In the object of the document.
abbrev at_top : Bool → Phrase → Bytes → PhraseStreamHandler
at_top saw p k = state 1 false false false saw k none p

abbrev Finds : Bool → Phrase → Bytes → List Event → Bool → List Phrase → Type 0
Finds saw p k es saw' ps =
    (p' : Phrase) × (k' : Bytes) × (run (at_top saw p k) es ≡ (at_top saw' p' k', ps))

or_false : (b : Bool) → (b || false) ≡ b
or_false true = refl
or_false false = refl

or_true : (b : Bool) → (b || true) ≡ true
or_true true = refl
or_true false = refl

Passes-top :
    (saw : Bool) (p : Phrase) (k : Bytes) (es : List Event)
    → Passes (at_top saw p) k es
    → Finds saw p k es (saw || false) []
Passes-top saw p k es (k', r, e) = (p, k', e ∙ ap (λ b. (at_top b p k', [])) (sym (or_false saw)))

top_value :
    (saw : Bool) (name : Bytes) (v : Json) (p : Phrase)
    → Finds saw p name (events v) (saw || is_phrases name v) (phrases_under name v)
unfolding handle events
top_value saw name (plain s) p =
    Passes-top saw p name (scalar s ∷ []) (calm_scalar false saw p s 1 name)
top_value saw name (object members) p = Passes-top saw p name (events (object members)) (
    Passes-inside (at_top saw p) (outside false saw p 2) name start_object end_object
      (member_events members) refl (Calm-members false saw p members 2 name (omega arith, inl refl))
      (λ k'. refl))
top_value saw name (array items) p = elim (Bool-cases (bytes_eq name (bytes "phrases"))) [
  | inl hit ↦
      let (p', k', e) = array_items items p [] in
      let last : PhraseStreamHandler = at_top true p' k' in
      let inside : run (in_array p []) (item_events items ++ (end_array ∷ []))
          ≡ (last, phrases_in items) =
        run-then (in_array p []) (item_events items) (end_array ∷ []) (in_array p' k') last
          (phrases_in items) [] e (run-one (in_array p' k') end_array last [] refl)
        ∙ ap (λ qs. (last, qs)) (append-nil (phrases_in items)) in
      let whole =
        run-first (at_top saw p name) start_array (item_events items ++ (end_array ∷ []))
          (in_array p []) last [] (phrases_in items) (rw hit refl) inside in
      rw hit (p', k', whole ∙ ap (λ b. (at_top b p' k', phrases_in items)) (sym (or_true saw)))
  | inr miss ↦ rw miss (
      Passes-top saw p name (events (array items)) (
        Passes-inside (at_top saw p) (outside false saw p 2) name start_array end_array
          (item_events items) (rw miss refl)
          (Calm-items false saw p items 2 name (omega arith, inl refl)) (λ k'. refl)))
]

or_assoc : (a b c : Bool) → ((a || b) || c) ≡ (a || (b || c))
or_assoc true b c = refl
or_assoc false b c = refl

top_members :
    (members : Members) (saw : Bool) (p : Phrase) (k : Bytes)
    → Finds saw p k
        (member_events members)
        (saw || member_has_phrases members)
        (member_phrases members)
unfolding run handle member_events
top_members no_members saw p k = Passes-top saw p k [] (k, inl refl, refl)
top_members (member name v rest) saw p k =
    let saw' = saw || is_phrases name v in
    let (p1, k1, e1) = top_value saw name v p in
    let (p2, k2, e2) = top_members rest saw' p1 k1 in
    let last : PhraseStreamHandler = at_top (saw' || member_has_phrases rest) p2 k2 in
    (
      p2,
      k2,
      run-first (at_top saw p k) (key name) (events v ++ member_events rest) (at_top saw p name)
            last [] (phrases_under name v ++ member_phrases rest) refl
            (run-then (at_top saw p name) (events v) (member_events rest) (at_top saw' p1 k1) last
              (phrases_under name v) (member_phrases rest) e1 e2)
          ∙ ap (λ b. (at_top b p2 k2, phrases_under name v ++ member_phrases rest))
              (or_assoc saw (is_phrases name v) (member_has_phrases rest)),
    )

-- An array at the top: its items stand at depth 1, under no key.
abbrev Ignored : List Event → Type 0
Ignored es = run (at_top false no_phrase []) es ≡ (at_top false no_phrase [], [])

ignored : (es : List Event) → Passes (at_top false no_phrase) [] es → Ignored es
ignored es (k, r, e) = e ∙ ap (λ k. (at_top false no_phrase k, [])) (Rekeyed-nil k r)

top_item : (v : Json) → Ignored (events v)
unfolding handle events
top_item (plain s) = ignored (scalar s ∷ []) (calm_scalar false false no_phrase s 1 [])
top_item (array items) = ignored (events (array items)) (
    Passes-inside (at_top false no_phrase) (outside false false no_phrase 2) [] start_array
      end_array (item_events items) refl
      (Calm-items false false no_phrase items 2 [] (omega arith, inl refl)) (λ k'. refl))
top_item (object members) = ignored (events (object members)) (
    Passes-inside (at_top false no_phrase) (outside false false no_phrase 2) [] start_object
      end_object (member_events members) refl
      (Calm-members false false no_phrase members 2 [] (omega arith, inl refl)) (λ k'. refl))

top_items : (items : Items) → Ignored (item_events items)
unfolding run item_events
top_items no_items = refl
top_items (item v rest) =
    run-then (at_top false no_phrase []) (events v) (item_events rest) (at_top false no_phrase [])
      (at_top false no_phrase []) [] [] (top_item v) (top_items rest)

-- On the events of any JSON document the handler calls back with the phrases that a walk over the tree
-- finds, one for each object in an array under the key "phrases" of the document, in order, each with
-- its offset and the strings of its words; and it has seen the phrases exactly when there is such an
-- array.
pub run-phrases :
    (v : Json)
    → ((run constructed (events v)).1 ≡ phrases v)
      × ((run constructed (events v)).0.saw_phrases ≡ has_phrases v)
unfolding handle events
run-phrases (plain s) =
    let (k, r, e) = calm_scalar false false no_phrase s 0 [] in
    (ap (λ o. o.1) e, ap (λ o. o.0.saw_phrases) e)
run-phrases (array items) =
    let whole =
      run-first constructed start_array (item_events items ++ (end_array ∷ []))
        (at_top false no_phrase []) constructed [] [] refl
        (run-then (at_top false no_phrase []) (item_events items) (end_array ∷ [])
          (at_top false no_phrase []) constructed [] [] (top_items items)
          (run-one (at_top false no_phrase []) end_array constructed [] refl)) in
    (ap (λ o. o.1) whole, ap (λ o. o.0.saw_phrases) whole)
run-phrases (object members) =
    let (p, k, e) = top_members members false no_phrase [] in
    let found = member_phrases members in
    let saw = member_has_phrases members in
    let last : PhraseStreamHandler = state 0 false false false saw k none p in
    let whole =
      run-first constructed start_object (member_events members ++ (end_object ∷ []))
        (at_top false no_phrase []) last [] (found ++ []) refl
        (run-then (at_top false no_phrase []) (member_events members) (end_object ∷ [])
          (at_top saw p k) last found [] e (run-one (at_top saw p k) end_object last [] refl)) in
    (ap (λ o. o.1) whole ∙ append-nil found, ap (λ o. o.0.saw_phrases) whole)
