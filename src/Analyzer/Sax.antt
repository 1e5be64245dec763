-- ===== src/Analyzer/Sax.antt =====
-- `PhraseStreamHandler` of src/result_analyzer/ResultAnalyzer.cpp: what it makes of the events that the
-- JSON parser reports. The callback is the list of the phrases that it is called with.
pub mod Document
pub mod Pieces
pub mod Skipped
pub mod Outside
pub mod Phrases
pub mod Whole
mod Tests
use pi_poetry.Base.{
  ℕ, zero, suc, ◌+◌, ◌-◌, Bool, true, false, not, ◌&&◌, ◌||◌, Option, none, some, List, [], ◌∷◌,
  ◌++◌, ◌==◌, if◌then◌else◌, Bytes, bytes, bytes_eq,
}
use pi_poetry.Analyzer.Stats.{Phrase}

-- The values that are neither objects nor arrays.
pub data Scalar : Type 0 where
  null number_integer number_float : Scalar
  boolean : (val : Bool) → Scalar
  number_unsigned : (val : ℕ) → Scalar
  string : (val : Bytes) → Scalar

pub data Event : Type 0 where
  scalar : (s : Scalar) → Event
  key : (val : Bytes) → Event
  start_object end_object start_array end_array : Event

pub record PhraseStreamHandler : Type 0 where
  pub depth : ℕ
  pub in_phrases_array : Bool
  pub in_phrase_object : Bool
  pub in_words_array : Bool
  pub saw_phrases : Bool
  pub current_key : Bytes
  pub skip_depth : Option ℕ
  pub current : Phrase

abbrev pub no_phrase : Phrase
no_phrase = record { start_offset = 0; words = [] }

abbrev pub constructed : PhraseStreamHandler
constructed = record {
  depth = 0;
  in_phrases_array = false;
  in_phrase_object = false;
  in_words_array = false;
  saw_phrases = false;
  current_key = [];
  skip_depth = none;
  current = no_phrase;
}

-- `skip_depth_ == -1`.
abbrev pub not_skipping : Option ℕ → Bool
not_skipping none = true
not_skipping (some d) = false

abbrev pub clear_key : PhraseStreamHandler → PhraseStreamHandler
clear_key h = record h { current_key = [] }

abbrev pub with_offset : PhraseStreamHandler → ℕ → PhraseStreamHandler
with_offset h val = record h {
  current = record (h.current) { start_offset = val };
  current_key = [];
}

abbrev pub with_word : PhraseStreamHandler → Bytes → PhraseStreamHandler
with_word h val = record h { current = record (h.current) { words = h.current.words ++ val ∷ [] } }

unfoldable pub on_scalar : PhraseStreamHandler → Scalar → PhraseStreamHandler
on_scalar h null = h
on_scalar h number_integer = h
on_scalar h number_float = h
on_scalar h (boolean val) = h
on_scalar h (number_unsigned val) =
    if h.in_phrase_object
      && not_skipping h.skip_depth
      && bytes_eq h.current_key (bytes "start_offset")
    then with_offset h val
    else clear_key h
on_scalar h (string val) =
    if h.in_words_array && not_skipping h.skip_depth then with_word h val else clear_key h

unfoldable pub on_key : PhraseStreamHandler → Bytes → PhraseStreamHandler
on_key h val =
    if h.in_phrase_object && not_skipping h.skip_depth || h.depth == 1
    then record h { current_key = val }
    else h

-- The two tests after `++depth_`.
abbrev pub opened_object : PhraseStreamHandler → PhraseStreamHandler
opened_object h =
    if h.in_phrases_array && h.depth == 3 && not_skipping h.skip_depth
    then record h { in_phrase_object = true; current = no_phrase }
    else if not_skipping h.skip_depth && h.in_phrase_object
    then record h { skip_depth = some h.depth }
    else h

unfoldable pub on_start_object : PhraseStreamHandler → PhraseStreamHandler
on_start_object h = opened_object (record h { depth = h.depth + 1 })

abbrev pub opened_array : PhraseStreamHandler → PhraseStreamHandler
opened_array h =
    if h.depth == 2 && bytes_eq h.current_key (bytes "phrases") && not h.in_phrase_object
    then record h { in_phrases_array = true; saw_phrases = true; current_key = [] }
    else if h.in_phrase_object
        && h.depth == 4
        && bytes_eq h.current_key (bytes "words")
        && not_skipping h.skip_depth
    then record h { in_words_array = true; current_key = [] }
    else if not_skipping h.skip_depth && h.in_phrase_object
    then record h { skip_depth = some h.depth }
    else h

unfoldable pub on_start_array : PhraseStreamHandler → PhraseStreamHandler
on_start_array h = opened_array (record h { depth = h.depth + 1 })

-- The end of what is skipped, at depth `d`.
abbrev pub leave_skipped : PhraseStreamHandler → ℕ → PhraseStreamHandler
leave_skipped h d = record h {
  skip_depth = if h.depth == d then none else some d;
  depth = h.depth - 1;
}

abbrev pub close_object : PhraseStreamHandler → Option ℕ → PhraseStreamHandler × List Phrase
close_object h (some d) = (leave_skipped h d, [])
close_object h none =
    if h.in_phrase_object && h.depth == 3
    then (record h { in_phrase_object = false; depth = h.depth - 1 }, h.current ∷ [])
    else (record h { depth = h.depth - 1 }, [])

unfoldable pub on_end_object : PhraseStreamHandler → PhraseStreamHandler × List Phrase
on_end_object h = close_object h h.skip_depth

abbrev pub close_array : PhraseStreamHandler → Option ℕ → PhraseStreamHandler
close_array h (some d) = leave_skipped h d
close_array h none = record h {
  in_words_array = if h.in_words_array && h.depth == 4 then false else h.in_words_array;
  in_phrases_array = if h.in_phrases_array && h.depth == 2 then false else h.in_phrases_array;
  depth = h.depth - 1;
}

unfoldable pub on_end_array : PhraseStreamHandler → PhraseStreamHandler
on_end_array h = close_array h h.skip_depth

unfoldable pub handle : PhraseStreamHandler → Event → PhraseStreamHandler × List Phrase
unfolding on_scalar on_key on_start_object on_end_object on_start_array on_end_array
handle h (scalar s) = (on_scalar h s, [])
handle h (key val) = (on_key h val, [])
handle h start_object = (on_start_object h, [])
handle h end_object = on_end_object h
handle h start_array = (on_start_array h, [])
handle h end_array = (on_end_array h, [])

-- All events of a document.
unfoldable pub run : PhraseStreamHandler → List Event → PhraseStreamHandler × List Phrase
unfolding handle
run h [] = (h, [])
run h (e ∷ es) = let now = handle h e in let rest = run now.0 es in (rest.0, now.1 ++ rest.1)
