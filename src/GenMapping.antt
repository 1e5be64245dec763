-- ===== src/GenMapping.antt =====
-- src/gen_mapping/GenMapping.cpp: the mapping files that the generator writes.
pub mod Combos
pub mod Entries
pub mod RoundTrip
pub mod Frequencies
mod Tests
use pi_poetry.Base.{
  ℕ, zero, suc, ◌+◌, ◌-◌, Bool, true, false, ◌&&◌, ◌||◌, Option, none, some, List, [], ◌∷◌, ◌++◌,
  map, leb, if◌then◌else◌, length, Bytes, bytes,
}
use pi_poetry.Base.Map.{Map, find, insert}
use pi_poetry.Base.Strings.{to_string}

-- `std::tolower` of a letter of the "C" locale; `none` for what `std::isalpha` refuses.
abbrev pub lowered : ℕ → Option ℕ
lowered c =
    if leb b'a' c && leb c b'z'
    then some c
    else if leb b'A' c && leb c b'Z'
    then some (c + 32)
    else none

abbrev pub count_of : ℕ → Map ℕ → ℕ
count_of c freq = elim (find c freq) [ none ↦ 0 | some n ↦ n ]

-- `count_char_frequencies`, from the counts so far.
unfoldable pub count_from : Map ℕ → Bytes → Map ℕ
count_from freq [] = freq
count_from freq (c ∷ text) = elim (lowered c) [
  | none ↦ count_from freq text
  | some l ↦ count_from (insert l (count_of l freq + 1) freq) text
]

abbrev pub count_char_frequencies : Bytes → Map ℕ
unfolding count_from
count_char_frequencies text = count_from [] text

-- `assign_combos`: the combo of an index, padded to `digits` characters.
abbrev pub zeros : ℕ → Bytes
zeros zero = []
zeros (suc n) = b'0' ∷ zeros n

abbrev pub combo : ℕ → ℕ → Bytes
combo digits index = let s = to_string index in zeros (digits - length s) ++ s

-- The characters, each as often as it has slots.
abbrev pub repeated : ℕ → ℕ → List ℕ
repeated ch zero = []
repeated ch (suc n) = ch ∷ repeated ch n

abbrev pub expanded : Map ℕ → List ℕ
expanded [] = []
expanded ((ch, n_slots) ∷ slots) = repeated ch n_slots ++ expanded slots

abbrev pub Assignments : Type 0
Assignments = List (Bytes × ℕ)

abbrev pub numbered_from : ℕ → ℕ → List ℕ → Assignments
numbered_from digits index [] = []
numbered_from digits index (ch ∷ chars) =
    (combo digits index, ch) ∷ numbered_from digits (suc index) chars

unfoldable pub assign_combos : Map ℕ → ℕ → Assignments
assign_combos slots digits = numbered_from digits 0 (expanded slots)

-- `shuffle_assignments`, where `shuffle` is what the generator's `std::shuffle` does to the characters.
abbrev pub with_chars : Assignments → List ℕ → Assignments
with_chars [] chars = []
with_chars (a ∷ assignments) [] = []
with_chars ((c, _) ∷ assignments) (ch ∷ chars) = (c, ch) ∷ with_chars assignments chars

unfoldable pub shuffle_assignments : (List ℕ → List ℕ) → Assignments → Assignments
shuffle_assignments shuffle assignments =
    with_chars assignments (shuffle (map (λ a. a.1) assignments))

-- `write_mapping`.
abbrev pub entry_lines : Assignments → Bytes
entry_lines [] = []
entry_lines ((c, ch) ∷ assignments) = c ++ (32 ∷ ch ∷ 10 ∷ entry_lines assignments)

unfoldable pub write_mapping : Assignments → ℕ → Bytes
write_mapping assignments digits =
    bytes "digits_per_char="
    ++ (to_string digits ++ (10 ∷ (bytes "base=10\n" ++ entry_lines assignments)))
