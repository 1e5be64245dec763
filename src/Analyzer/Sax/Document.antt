-- ===== src/Analyzer/Sax/Document.antt =====
-- JSON documents as trees, the events that a parser reports for them, and the phrases that a walk over
-- the tree finds.
use pi_poetry.Base.{Bool, false, List, [], ◌∷◌, ◌++◌, ◌||◌, if◌then◌else◌, Bytes, bytes, bytes_eq}
use pi_poetry.Analyzer.Stats.{Phrase}
use pi_poetry.Analyzer.Sax.{
  Scalar, number_unsigned, string, Event, scalar, key, start_object, end_object, start_array,
  end_array, no_phrase,
}

mutual
  pub data Json : Type 0 where
    plain : (s : Scalar) → Json
    array : (items : Items) → Json
    object : (members : Members) → Json

  pub data Items : Type 0 where
    no_items : Items
    item : (value : Json) (rest : Items) → Items

  pub data Members : Type 0 where
    no_members : Members
    member : (name : Bytes) (value : Json) (rest : Members) → Members

unfoldable mutual
  pub events : Json → List Event
  events (plain s) = scalar s ∷ []
  events (array items) = start_array ∷ (item_events items ++ (end_array ∷ []))
  events (object members) = start_object ∷ (member_events members ++ (end_object ∷ []))

  pub item_events : Items → List Event
  item_events no_items = []
  item_events (item value rest) = events value ++ item_events rest

  pub member_events : Members → List Event
  member_events no_members = []
  member_events (member name value rest) = key name ∷ (events value ++ member_events rest)

-- The strings that stand directly in an array.
abbrev pub direct_word : Json → List Bytes
direct_word (plain (string s)) = s ∷ []
direct_word other = []

abbrev pub direct_words : Items → List Bytes
direct_words no_items = []
direct_words (item value rest) = direct_word value ++ direct_words rest

-- A member of a phrase object: the offset, or more words.
abbrev pub set_offset : Json → Phrase → Phrase
set_offset (plain (number_unsigned n)) p = record p { start_offset = n }
set_offset other p = p

abbrev pub add_words : Json → Phrase → Phrase
add_words (array items) p = record p { words = p.words ++ direct_words items }
add_words other p = p

abbrev pub add_member : Bytes → Json → Phrase → Phrase
add_member name value p =
    if bytes_eq name (bytes "start_offset")
    then set_offset value p
    else if bytes_eq name (bytes "words")
    then add_words value p
    else p

abbrev pub phrase_from : Phrase → Members → Phrase
phrase_from p no_members = p
phrase_from p (member name value rest) = phrase_from (add_member name value p) rest

-- The phrases of an array: one for each object in it.
abbrev pub phrase_of : Json → List Phrase
phrase_of (object members) = phrase_from no_phrase members ∷ []
phrase_of other = []

abbrev pub phrases_in : Items → List Phrase
phrases_in no_items = []
phrases_in (item value rest) = phrase_of value ++ phrases_in rest

-- The phrases of the arrays that the document has under the key "phrases".
abbrev pub phrases_under : Bytes → Json → List Phrase
phrases_under name (array items) = if bytes_eq name (bytes "phrases") then phrases_in items else []
phrases_under name other = []

abbrev pub member_phrases : Members → List Phrase
member_phrases no_members = []
member_phrases (member name value rest) = phrases_under name value ++ member_phrases rest

abbrev pub phrases : Json → List Phrase
phrases (object members) = member_phrases members
phrases other = []

-- Whether the document has an array under the key "phrases".
abbrev pub is_phrases : Bytes → Json → Bool
is_phrases name (array items) = bytes_eq name (bytes "phrases")
is_phrases name other = false

abbrev pub member_has_phrases : Members → Bool
member_has_phrases no_members = false
member_has_phrases (member name value rest) = is_phrases name value || member_has_phrases rest

abbrev pub has_phrases : Json → Bool
has_phrases (object members) = member_has_phrases members
has_phrases other = false
