-- ===== src/Analyzer/Chunks/Texts.antt =====
-- The text of an array of objects: what stands between brackets, with its strings, and where the
-- objects start and end.
use pi_poetry.Base.{
  ℕ, ◌+◌, ◌≡◌, Bool, true, false, ◌||◌, List, [], ◌∷◌, ◌++◌, All, ◌==◌, length, Bytes,
}
use pi_poetry.Analyzer.Chunks.{Range}

-- A character of a string, or one with a backslash before it.
pub data StringChar : Type 0 where
  plain escaped : (c : ℕ) → StringChar

pub data Text : Type 0 where
  stop : Text
  other : (c : ℕ) (rest : Text) → Text
  quoted : (cs : List StringChar) (rest : Text) → Text
  nested : (square : Bool) (inside rest : Text) → Text

abbrev pub opening : Bool → ℕ
opening true = b'['
opening false = b'{'

abbrev pub closing : Bool → ℕ
closing true = b']'
closing false = b'}'

abbrev pub string_text : List StringChar → Bytes
string_text [] = []
string_text (plain c ∷ cs) = c ∷ string_text cs
string_text (escaped c ∷ cs) = b'\\' ∷ c ∷ string_text cs

abbrev pub text : Text → Bytes
text stop = []
text (other c rest) = c ∷ text rest
text (quoted cs rest) = b'"' ∷ (string_text cs ++ b'"' ∷ text rest)
text (nested square inside rest) = opening square ∷ (text inside ++ closing square ∷ text rest)

-- Neither a quote nor a bracket.
abbrev pub Ordinary : ℕ → Type 0
Ordinary c =
    ((c == b'"') ≡ false) × ((c == b'{' || c == b'[') ≡ false) × ((c == b'}' || c == b']') ≡ false)

abbrev pub IsStringChar : StringChar → Type 0
IsStringChar (plain c) = ((c == b'\\') ≡ false) × ((c == b'"') ≡ false)
IsStringChar (escaped c) = Unit

abbrev pub IsText : Text → Type 0
IsText stop = Unit
IsText (other c rest) = Ordinary c × IsText rest
IsText (quoted cs rest) = All IsStringChar cs × IsText rest
IsText (nested square inside rest) = IsText inside × IsText rest

-- An object or an array with what stands before it.
pub record Element : Type 0 where
  pub gap : Bytes
  pub square : Bool
  pub inside : Text

abbrev pub object_text : Element → Bytes
object_text o = opening o.square ∷ (text o.inside ++ closing o.square ∷ [])

abbrev pub elements_text : List Element → Bytes
elements_text [] = []
elements_text (o ∷ os) = o.gap ++ (object_text o ++ elements_text os)

abbrev pub IsElement : Element → Type 0
IsElement o = All Ordinary o.gap × IsText o.inside

-- Where each object starts and ends, when the text starts at `pos`.
abbrev pub spans : ℕ → List Element → List Range
spans pos [] = []
spans pos (o ∷ os) =
    let start = pos + length o.gap in
    let end = start + length (object_text o) in (start, end) ∷ spans end os
