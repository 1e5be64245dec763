-- ===== src/Base/Strings.antt =====
-- What the sources use of the standard library's text functions: `std::getline`, `operator>>` into a
-- string, `std::stoi` and the printing of integers.
pub mod Numerals
pub mod Lines
use Prim.Native.Nat.{ℕ, zero, suc, ◌+◌, ◌-◌, ◌*◌, ◌/◌, ◌%◌, ◌^◌}
use mathlib.Core.Bool.{Bool, true, false, ◌&&◌, ◌||◌}
use mathlib.Core.Option.{Option, none, some}
use mathlib.Core.List.{List, [], ◌∷◌, ◌++◌}
use pi_poetry.Base.Tests.{ltb, leb, ◌==◌, if◌then◌else◌}
use pi_poetry.Base.Text.{Bytes}

-- A byte put before the first line.
abbrev pub onto_first : ℕ → List Bytes → List Bytes
onto_first c [] = (c ∷ []) ∷ []
onto_first c (l ∷ ls) = (c ∷ l) ∷ ls

-- The lines that `std::getline` yields one after the other: no line follows a final line break.
abbrev pub lines : Bytes → List Bytes
lines [] = []
lines (c ∷ cs) = let rest = lines cs in if c == 10 then [] ∷ rest else onto_first c rest

-- `std::isspace` in the "C" locale.
abbrev pub is_space : ℕ → Bool
is_space c = c == 32 || leb 9 c && leb c 13

abbrev pub is_decimal : ℕ → Bool
is_decimal c = leb 48 c && leb c 57

abbrev pub skip_spaces : Bytes → Bytes
skip_spaces [] = []
skip_spaces (c ∷ cs) = let rest = skip_spaces cs in if is_space c then rest else c ∷ cs

-- The bytes up to the next space, and what is left.
abbrev pub word : Bytes → Bytes × Bytes
word [] = ([], [])
word (c ∷ cs) = let rest = word cs in if is_space c then ([], c ∷ cs) else (c ∷ rest.0, rest.1)

-- `in >> s`: an empty word is a failure.
abbrev pub unless_empty : Bytes × Bytes → Option (Bytes × Bytes)
unless_empty ([], rest) = none
unless_empty (c ∷ cs, rest) = some (c ∷ cs, rest)

abbrev pub next_word : Bytes → Option (Bytes × Bytes)
next_word s = unless_empty (word (skip_spaces s))

-- The number at the front of a text, from the number read so far; `none` without a digit.
abbrev pub digits_from : ℕ → Bytes → ℕ
digits_from n [] = n
digits_from n (c ∷ cs) =
    let rest = digits_from (n * 10 + (c - 48)) cs in if is_decimal c then rest else n

abbrev pub leading_number : Bytes → Option ℕ
leading_number [] = none
leading_number (c ∷ cs) = if is_decimal c then some (digits_from (c - 48) cs) else none

-- What `std::stoi` gives: an `int`, as its sign and its size, or one of the two exceptions.
pub data Stoi : Type 0 where
  number : (negative : Bool) (magnitude : ℕ) → Stoi
  invalid_argument out_of_range : Stoi

abbrev pub in_int : Bool → Option ℕ → Stoi
in_int negative none = invalid_argument
in_int negative (some n) =
    if leb n (if negative then 2 ^ 31 else 2 ^ 31 - 1) then number negative n else out_of_range

abbrev pub signed : Bytes → Stoi
signed [] = invalid_argument
signed (c ∷ cs) =
    if c == b'-'
    then in_int true (leading_number cs)
    else if c == b'+'
    then in_int false (leading_number cs)
    else in_int false (leading_number (c ∷ cs))

abbrev pub stoi : Bytes → Stoi
stoi s = signed (skip_spaces s)

-- `std::stoul` to 64 bits, which a minus sign negates; `none` for one of the two exceptions.
abbrev pub in_ulong : Bool → Option ℕ → Option ℕ
in_ulong negative none = none
in_ulong negative (some n) =
    if ltb n (2 ^ 64) then some (if negative then (2 ^ 64 - n) % 2 ^ 64 else n) else none

abbrev pub signed_ulong : Bytes → Option ℕ
signed_ulong [] = none
signed_ulong (c ∷ cs) =
    if c == b'-'
    then in_ulong true (leading_number cs)
    else if c == b'+'
    then in_ulong false (leading_number cs)
    else in_ulong false (leading_number (c ∷ cs))

abbrev pub stoul : Bytes → Option ℕ
stoul s = signed_ulong (skip_spaces s)

-- The decimal digits of `n`, the last ones first put before `later`; the fuel is `n` itself, since each
-- round but the last divides by ten.
abbrev pub decimal : ℕ → ℕ → Bytes → Bytes
decimal zero n later = (n % 10 + 48) ∷ later
decimal (suc fuel) n later =
    let more = decimal fuel (n / 10) ((n % 10 + 48) ∷ later) in
    if ltb n 10 then (n % 10 + 48) ∷ later else more

-- `std::to_string` and `<<` of a number that is not negative.
unfoldable pub to_string : ℕ → Bytes
to_string n = decimal n n []
