-- ===== src/Digits/MappingFile.antt =====
-- `MappingFileMapper` of src/digit_mapper/MappingFileMapper.cpp, from the bytes of the file. Where a
-- product overflows `int` the behaviour of the source is undefined: the outcome `overflow`.
pub mod Blocks
pub mod Numbers
pub mod Loading
pub mod Fresh
pub mod Headers
pub mod Loaded
pub mod Lines
pub mod Letters
pub mod Shipped
mod Tests
use pi_poetry.Base.{
  ℕ, zero, suc, ◌+◌, ◌-◌, ◌*◌, ◌/◌, ◌%◌, ◌^◌, Bool, true, false, ◌||◌, Option, none, some, List, [],
  ◌∷◌, ◌++◌, ◌==◌, ltb, leb, if◌then◌else◌, length, set, get_or, take, drop, Bytes, bytes, bytes_eq,
}
use pi_poetry.Base.Result.{Result, ok, err, ◌>>=◌}
use pi_poetry.Base.Strings.{lines, next_word, Stoi, number, invalid_argument, out_of_range, stoi}
use pi_poetry.Digits.{DigitMapper}

-- What the constructor throws.
pub data MappingError : Type 0 where
  bad_number : MappingError
  bad_digits_per_char bad_base missing_digits_per_char missing_base : MappingError
  malformed wrong_length not_one_character : (line : Bytes) → MappingError
  invalid_digit : (c : ℕ) (line : Bytes) → MappingError
  duplicate missing_entry : (combo : Bytes) → MappingError
  overflow : MappingError

pub record MappingFileMapper : Type 0 where
  pub digits_per_char : ℕ
  pub base : ℕ
  pub table : List ℕ
  pub alphabet : Bytes

-- `trim`.
abbrev pub is_blank : ℕ → Bool
is_blank c = c == 32 || c == 9 || c == 13 || c == 10

abbrev pub trim_front : Bytes → Bytes
trim_front [] = []
trim_front (c ∷ cs) = let rest = trim_front cs in if is_blank c then rest else c ∷ cs

abbrev pub trim_back : Bytes → Bytes
trim_back [] = []
trim_back (c ∷ cs) = elim (trim_back cs) [
  | [] ↦ if is_blank c then [] else c ∷ []
  | (d ∷ ds) ↦ c ∷ d ∷ ds
]

abbrev pub trim : Bytes → Bytes
trim s = trim_back (trim_front s)

-- `line.find('=')`: what stands before it and after it.
abbrev pub split_eq : Bytes → Option (Bytes × Bytes)
split_eq [] = none
split_eq (c ∷ cs) =
    if c == b'='
    then some ([], cs)
    else elim (split_eq cs) [ none ↦ none | some (before, after) ↦ some (c ∷ before, after) ]

-- The loop over the lines: the headers and the entry lines.
abbrev pub Sorted : Type 0
Sorted = List (Bytes × Bytes) × List Bytes

abbrev pub sort_kept : Bytes → Option (Bytes × Bytes) → Sorted → Sorted
sort_kept line none (headers, entries) = (headers, line ∷ entries)
sort_kept line (some (key, val)) (headers, entries) = ((trim key, trim val) ∷ headers, entries)

abbrev pub sort_line : Bytes → Sorted → Sorted
sort_line [] rest = rest
sort_line (c ∷ cs) rest = if c == b'#' then rest else sort_kept (c ∷ cs) (split_eq (c ∷ cs)) rest

abbrev pub sort_lines : List Bytes → Sorted
sort_lines [] = ([], [])
sort_lines (line ∷ rest) = sort_line (trim line) (sort_lines rest)

-- A header's number, which must lie between `low` and `high`.
abbrev pub checked : MappingError → ℕ → ℕ → Stoi → Result MappingError (Option ℕ)
checked error low high (number negative n) =
    if negative || ltb n low || ltb high n then err error else ok (some n)
checked error low high invalid_argument = err bad_number
checked error low high out_of_range = err bad_number

-- The loop over the headers, with the last `dpc` and `base`; an -1 is `none`.
unfoldable pub read_headers :
    List (Bytes × Bytes) → Option ℕ → Option ℕ → Result MappingError (Option ℕ × Option ℕ)
read_headers [] dpc base = ok (dpc, base)
read_headers ((key, val) ∷ headers) dpc base =
    if bytes_eq key (bytes "digits_per_char")
    then checked bad_digits_per_char 1 (2 ^ 31 - 1) (stoi val)
      >>= (λ d. read_headers headers d base)
    else if bytes_eq key (bytes "base")
    then checked bad_base 2 10 (stoi val) >>= (λ b. read_headers headers dpc b)
    else read_headers headers dpc base

abbrev pub require : MappingError → Option ℕ → Result MappingError ℕ
require error none = err error
require error (some n) = ok n

-- `pow_int`, where every product must stay in `int`.
unfoldable pub pow_int : ℕ → ℕ → Result MappingError ℕ
pow_int base zero = ok 1
pow_int base (suc exp) =
    pow_int base exp >>= (λ p. if ltb (p * base) (2 ^ 31) then ok (p * base) else err overflow)

-- The value of a combo.
unfoldable pub combo_value : ℕ → Bytes → ℕ → Bytes → Result MappingError ℕ
combo_value base line value [] = ok value
combo_value base line value (c ∷ combo) =
    let rest = combo_value base line (value * base + (c - b'0')) combo in
    if ltb c b'0' || leb (b'0' + base) c then err (invalid_digit c line) else rest

-- An entry line's combo, its value and its character.
abbrev pub one_character : Bytes → Bytes → Result MappingError ℕ
one_character line (c ∷ []) = ok c
one_character line _ = err (not_one_character line)

abbrev pub second_word :
    Bytes → Bytes → Option (Bytes × Bytes) → Result MappingError (Bytes × Bytes)
second_word line combo none = err (malformed line)
second_word line combo (some (out_str, _)) = ok (combo, out_str)

abbrev pub first_word : Bytes → Option (Bytes × Bytes) → Result MappingError (Bytes × Bytes)
first_word line none = err (malformed line)
first_word line (some (combo, rest)) = second_word line combo (next_word rest)

abbrev pub two_words : Bytes → Result MappingError (Bytes × Bytes)
two_words line = first_word line (next_word line)

unfoldable pub read_entry : ℕ → ℕ → Bytes → Result MappingError (Bytes × ℕ × ℕ)
unfolding combo_value
read_entry dpc base line = two_words line >>= (λ words.
    (if length words.0 == dpc then ok words.0 else err (wrong_length line)) >>= (λ combo.
      one_character line words.1
      >>= (λ c. combo_value base line 0 combo >>= (λ value. ok (combo, value, c)))))

-- The table, where `some` is an entry that was seen.
abbrev pub Table : Type 0
Table = List (Option ℕ)

abbrev pub blank : ℕ → Table
blank zero = []
blank (suc n) = none ∷ blank n

abbrev pub add_entry : Table → Bytes × ℕ × ℕ → Result MappingError Table
add_entry table (combo, value, c) = elim (get_or table value none) [
  | none ↦ ok (set table value (some c))
  | some _ ↦ err (duplicate combo)
]

-- The loop over the entry lines.
unfoldable pub read_entries : ℕ → ℕ → Table → List Bytes → Result MappingError Table
unfolding read_entry
read_entries dpc base table [] = ok table
read_entries dpc base table (line ∷ entries) =
    read_entry dpc base line
    >>= (λ entry. add_entry table entry >>= (λ table'. read_entries dpc base table' entries))

-- The combo of a value, as the message of a missing entry has it.
abbrev pub combo_of : ℕ → ℕ → ℕ → Bytes → Bytes
combo_of base zero value later = later
combo_of base (suc dpc) value later =
    combo_of base dpc (value / base) ((value % base + b'0') ∷ later)

-- The loop that looks for a missing entry, from `i` on.
unfoldable pub full_table : ℕ → ℕ → ℕ → Table → Result MappingError (List ℕ)
full_table dpc base i [] = ok []
full_table dpc base i (none ∷ table) = err (missing_entry (combo_of base dpc i []))
full_table dpc base i (some c ∷ table) =
    full_table dpc base (suc i) table >>= (λ rest. ok (c ∷ rest))

-- The characters of the table, each at its first place.
abbrev pub occurs : ℕ → Bytes → Bool
occurs c [] = false
occurs c (d ∷ ds) = c == d || occurs c ds

abbrev pub add_characters : Bytes → List ℕ → Bytes
add_characters alphabet [] = alphabet
add_characters alphabet (c ∷ table) =
    add_characters (if occurs c alphabet then alphabet else alphabet ++ c ∷ []) table

-- The constructor.
unfoldable pub load : Bytes → Result MappingError MappingFileMapper
unfolding read_headers pow_int read_entries full_table
load file =
    let sorted = sort_lines (lines file) in
    read_headers sorted.0 none none >>= (λ found.
      require missing_digits_per_char found.0 >>= (λ dpc. require missing_base found.1 >>= (λ base.
        pow_int base dpc >>= (λ size. read_entries dpc base (blank size) sorted.1 >>= (λ seen.
          full_table dpc base 0 seen >>= (λ table. ok (record {
            digits_per_char = dpc;
            base = base;
            table = table;
            alphabet = add_characters [] table;
          })))))))

-- `map`: the value of a block of digits, and the blocks one after the other.
abbrev pub block_value : ℕ → ℕ → List ℕ → ℕ
block_value base value [] = value
block_value base value (d ∷ digits) = block_value base (value * base + d) digits

unfoldable pub map_blocks : MappingFileMapper → ℕ → List ℕ → Bytes
map_blocks m zero digits = []
map_blocks m (suc blocks) digits =
    get_or m.table (block_value m.base 0 (take m.digits_per_char digits)) 0
    ∷ map_blocks m blocks (drop m.digits_per_char digits)

abbrev pub mapping_file : MappingFileMapper → DigitMapper
mapping_file m = record {
  map = λ digits. map_blocks m (length digits / m.digits_per_char) digits;
  digits_per_char = m.digits_per_char;
  required_base = m.base;
}
