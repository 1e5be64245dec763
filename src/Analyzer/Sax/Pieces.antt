-- ===== src/Analyzer/Sax/Pieces.antt =====
-- The events of a document's pieces, and what leaves the handler as it is.
use mathlib.Core.List.{append-nil}
use pi_poetry.Base.{
  ℕ, ◌≡◌, ◌⊎◌, inl, inr, refl, ◌∙◌, Bool, Option, List, [], ◌∷◌, ◌++◌, append_assoc, Bytes,
}
use pi_poetry.Analyzer.Stats.{Phrase}
use pi_poetry.Analyzer.Sax.{Event, PhraseStreamHandler, handle, run}

pub run-append :
    (h : PhraseStreamHandler) (es fs : List Event)
    → run h (es ++ fs)
      ≡ (let front = run h es in let back = run front.0 fs in (back.0, front.1 ++ back.1))
unfolding run
run-append h [] fs = refl
run-append h (e ∷ es) fs = rw (run-append (handle h e).0 es fs, append_assoc) refl

-- Two pieces of a document, one after the other.
pub run-then :
    (h : PhraseStreamHandler) (es fs : List Event) (h1 h2 : PhraseStreamHandler)
    (ps qs : List Phrase)
    → run h es ≡ (h1, ps)
    → run h1 fs ≡ (h2, qs)
    → run h (es ++ fs) ≡ (h2, ps ++ qs)
run-then h es fs h1 h2 ps qs front back = run-append h es fs ∙ rw (front, back) refl

-- One event and what comes after it.
pub run-first :
    (h : PhraseStreamHandler) (e : Event) (es : List Event) (h1 h2 : PhraseStreamHandler)
    (ps qs : List Phrase)
    → handle h e ≡ (h1, ps)
    → run h1 es ≡ (h2, qs)
    → run h (e ∷ es) ≡ (h2, ps ++ qs)
unfolding run
run-first h e es h1 h2 ps qs front back = rw (front, back) refl

pub run-one :
    (h : PhraseStreamHandler) (e : Event) (h1 : PhraseStreamHandler) (ps : List Phrase)
    → handle h e ≡ (h1, ps)
    → run h (e ∷ []) ≡ (h1, ps)
unfolding run
run-one h e h1 ps front = rw (front, append-nil) refl

-- A state with these fields.
abbrev pub state : ℕ → Bool → Bool → Bool → Bool → Bytes → Option ℕ → Phrase → PhraseStreamHandler
state depth phrases inside words saw k skip current = record {
  depth = depth;
  in_phrases_array = phrases;
  in_phrase_object = inside;
  in_words_array = words;
  saw_phrases = saw;
  current_key = k;
  skip_depth = skip;
  current = current;
}

-- The key is kept or cleared.
abbrev pub Rekeyed : Bytes → Bytes → Type 0
Rekeyed k k' = (k' ≡ k) ⊎ (k' ≡ [])

pub Rekeyed-trans : (a b c : Bytes) → Rekeyed a b → Rekeyed b c → Rekeyed a c
Rekeyed-trans a b c (inl e) (inl f) = inl (f ∙ e)
Rekeyed-trans a b c (inr e) (inl f) = inr (f ∙ e)
Rekeyed-trans a b c h (inr f) = inr f

-- The events leave the state as it is, but for the key.
module _ (make : Bytes → PhraseStreamHandler) where
  abbrev pub Passes : Bytes → List Event → Type 0
  Passes k es = (k' : Bytes) × Rekeyed k k' × (run (make k) es ≡ (make k', []))

  pub Passes-nil : (k : Bytes) → Passes k []
  unfolding run
  Passes-nil k = (k, inl refl, refl)

  pub Passes-append :
      (k : Bytes) (es fs : List Event)
      → Passes k es
      → ((k' : Bytes) → Passes k' fs)
      → Passes k (es ++ fs)
  Passes-append k es fs (k1, r1, e1) rest =
      let (k2, r2, e2) = rest k1 in
      (k2, Rekeyed-trans k k1 k2 r1 r2, run-then (make k) es fs (make k1) (make k2) [] [] e1 e2)

-- Around what passes in one state there are events that enter it and leave it.
pub Passes-inside :
    (make inner : Bytes → PhraseStreamHandler) (k : Bytes) (first last : Event) (es : List Event)
    → handle (make k) first ≡ (inner k, [])
    → Passes inner k es
    → ((k' : Bytes) → handle (inner k') last ≡ (make k', []))
    → Passes make k (first ∷ (es ++ (last ∷ [])))
Passes-inside make inner k first last es enter (k1, r1, e1) leave = (
  k1,
  r1,
  run-first (make k) first (es ++ (last ∷ [])) (inner k) (make k1) [] [] enter (
      run-then (inner k) es (last ∷ []) (inner k1) (make k1) [] [] e1
        (run-one (inner k1) last (make k1) [] (leave k1))),
)
