-- ===== src/GenMapping/RoundTrip.antt =====
-- The mapping files of the generator, read by `MappingFileMapper`.
use native.Mathlib.Nat.{pow-suc, pow-zero, le-mul_of_pos_right}
use pi_poetry.Base.{
  ℕ, zero, suc, ◌+◌, ◌-◌, ◌*◌, ◌^◌, ◌≤◌, ◌<◌, ◌≡◌, refl, sym, ap, ◌∙◌, true, false, Option, none,
  some, List, [], ◌∷◌, ◌++◌, append_assoc, map, arith, length, All, All-append, Bytes, bytes,
  lt→ltb, ge→ltb, ltb, ◌==◌,
}
use pi_poetry.Base.Result.{ok}
use pi_poetry.Base.Strings.{lines, to_string}
use pi_poetry.Base.Strings.Numerals.{stoi-to_string, to_string-decimal}
use pi_poetry.Base.Strings.Lines.{lines-append}
use pi_poetry.Digits.MappingFile.{
  load, pow_int, read_headers, sort_line, sort_lines, trim, blank, read_entries, full_table,
  add_characters,
}
use pi_poetry.Digits.MappingFile.Lines.{Plain, sort_line_header}
use pi_poetry.GenMapping.{
  expanded, numbered_from, with_chars, combo, entry_lines, assign_combos, shuffle_assignments,
  write_mapping,
}
use pi_poetry.GenMapping.Combos.{All-Plain}
use pi_poetry.GenMapping.Entries.{
  read_entries-numbered, full_table-some, sort_lines-entries, line_of, no_breaks,
}

pow_int-ok : (base exp : ℕ) → 0 < base → base ^ exp < 2 ^ 31 → pow_int base exp ≡ ok (base ^ exp)
unfolding pow_int
pow_int-ok base zero pos h = ap ok (sym (pow-zero base))
pow_int-ok base (suc exp) pos h =
    let step = pow-suc base exp in
    let less : base ^ exp ≤ base ^ exp * base = le-mul_of_pos_right (base ^ exp) pos in
    let fits : ltb (base ^ exp * base) (2 ^ 31) ≡ true = lt→ltb _ _ (omega arith) in
    rw (pow_int-ok base exp pos (omega arith), fits) (ap ok (sym step))

with_chars-numbered :
    (digits i : ℕ) (chars new : List ℕ)
    → length new ≡ length chars
    → with_chars (numbered_from digits i chars) new ≡ numbered_from digits i new
with_chars-numbered digits i [] [] h = refl
with_chars-numbered digits i [] (n ∷ new) h = absurd (omega arith)
with_chars-numbered digits i (c ∷ chars) [] h = absurd (omega arith)
with_chars-numbered digits i (c ∷ chars) (n ∷ new) h =
    ap (◌∷◌ (combo digits i, n)) (with_chars-numbered digits (suc i) chars new (omega arith))

chars-numbered :
    (digits i : ℕ) (chars : List ℕ) → map (λ a. a.1) (numbered_from digits i chars) ≡ chars
chars-numbered digits i [] = refl
chars-numbered digits i (c ∷ chars) = ap (◌∷◌ c) (chars-numbered digits (suc i) chars)

name_unbroken : All (λ c. c == 10 ≡ false) (bytes "digits_per_char=")
name_unbroken = ground arith

base_unbroken : All (λ c. c == 10 ≡ false) (bytes "base=10")
base_unbroken = ground arith

name-Plain : All Plain (bytes "digits_per_char")
name-Plain = ground arith

base-Plain : All Plain (bytes "base")
base-Plain = ground arith

ten-Plain : All Plain (bytes "10")
ten-Plain = ground arith

-- The two header lines.
header-lines :
    (digits : ℕ) (entries : Bytes)
    → lines
        (bytes "digits_per_char=" ++ (to_string digits ++ (10 ∷ (bytes "base=10\n" ++ entries))))
      ≡ (bytes "digits_per_char=" ++ to_string digits) ∷ bytes "base=10" ∷ lines entries
header-lines digits entries =
    let name = bytes "digits_per_char=" in
    let text = to_string digits in
    let rest = bytes "base=10\n" ++ entries in
    let unbroken =
      All-append (λ c. c == 10 ≡ false) name text name_unbroken
        (no_breaks text (All-Plain text (to_string-decimal digits))) in
    ap lines (sym (append_assoc name text (10 ∷ rest)))
    ∙ lines-append (name ++ text) rest unbroken
    ∙ ap (◌∷◌ (name ++ text)) (lines-append (bytes "base=10") entries base_unbroken)

sort_lines-headers :
    (digits : ℕ) (entries : List Bytes) (kept : List Bytes)
    → sort_lines entries ≡ ([], kept)
    → sort_lines ((bytes "digits_per_char=" ++ to_string digits) ∷ bytes "base=10" ∷ entries)
      ≡ ((bytes "digits_per_char", to_string digits) ∷ (bytes "base", bytes "10") ∷ [], kept)
sort_lines-headers digits entries kept e =
    ap
      (λ r.
        sort_line (trim (bytes "digits_per_char=" ++ to_string digits))
          (sort_line (trim (bytes "base=10")) r))
      e
    ∙ ap (sort_line (trim (bytes "digits_per_char=" ++ to_string digits)))
        (sort_line_header b'b' (bytes "ase") (bytes "10") [] kept base-Plain ten-Plain)
    ∙ sort_line_header b'd' (bytes "igits_per_char") (to_string digits)
        ((bytes "base", bytes "10") ∷ []) kept name-Plain
        (All-Plain (to_string digits) (to_string-decimal digits))

read_headers-written :
    (digits : ℕ)
    → 0 < digits
    → digits < 2 ^ 31
    → read_headers
        ((bytes "digits_per_char", to_string digits) ∷ (bytes "base", bytes "10") ∷ [])
        none
        none
      ≡ ok (some digits, some 10)
unfolding read_headers
read_headers-written digits pos h =
    let low : ltb digits 1 ≡ false = ge→ltb _ _ pos in
    let high : ltb (2 ^ 31 - 1) digits ≡ false = ge→ltb _ _ (omega arith) in
    rw (stoi-to_string digits h, low, high) refl

-- The constructor from what its parts give.
load-parts :
    (file : Bytes) (headers : List (Bytes × Bytes)) (entries : List Bytes) (dpc base size : ℕ)
    (seen : List (Option ℕ)) (table : List ℕ)
    → sort_lines (lines file) ≡ (headers, entries)
    → read_headers headers none none ≡ ok (some dpc, some base)
    → pow_int base dpc ≡ ok size
    → read_entries dpc base (blank size) entries ≡ ok seen
    → full_table dpc base 0 seen ≡ ok table
    → load file
      ≡ ok (record {
        digits_per_char = dpc;
        base = base;
        table = table;
        alphabet = add_characters [] table;
      })
unfolding load
load-parts file headers entries dpc base size seen table sorted found power read full =
    rw (sorted, found, power, read, full) refl

lt-pow_ten : (n : ℕ) → n < 10 ^ n
lt-pow_ten zero = omega (arith, pow-zero 10)
lt-pow_ten (suc n) = omega (arith, lt-pow_ten n, pow-suc 10 n)

-- What the generator writes, the reader loads: for combos of `suc k` digits with 10 to the power of
-- `suc k` below 2^31, as many slots as there are combos, characters that are neither blank nor `=`
-- nor `#`, and a shuffle that keeps their number, the mapper has the shuffled characters as its
-- table, in base 10.
pub load-write_mapping :
    (shuffle : List ℕ → List ℕ) (slots : List (ℕ × ℕ)) (k : ℕ)
    → length (shuffle (expanded slots)) ≡ length (expanded slots)
    → length (expanded slots) ≡ 10 ^ suc k
    → 10 ^ suc k < 2 ^ 31
    → All Plain (shuffle (expanded slots))
    → load (write_mapping (shuffle_assignments shuffle (assign_combos slots (suc k))) (suc k))
      ≡ ok (record {
        digits_per_char = suc k;
        base = 10;
        table = shuffle (expanded slots);
        alphabet = add_characters [] (shuffle (expanded slots));
      })
unfolding write_mapping shuffle_assignments assign_combos
load-write_mapping shuffle slots k same count fits plain =
    let chars = shuffle (expanded slots) in
    let written = numbered_from (suc k) 0 chars in
    let shuffled : shuffle_assignments shuffle (assign_combos slots (suc k)) ≡ written =
      ap (λ cs. with_chars (numbered_from (suc k) 0 (expanded slots)) (shuffle cs))
        (chars-numbered (suc k) 0 (expanded slots))
      ∙ with_chars-numbered (suc k) 0 (expanded slots) chars same in
    let small : suc k < 2 ^ 31 = omega (arith, lt-pow_ten (suc k)) in
    let all : 0 + length chars ≤ 10 ^ suc k = omega arith in
    let size : 10 ^ suc k ≡ length chars = omega arith in
    ap (λ a. load (write_mapping a (suc k))) shuffled
    ∙ load-parts (write_mapping written (suc k))
        ((bytes "digits_per_char", to_string (suc k)) ∷ (bytes "base", bytes "10") ∷ [])
        (map line_of written) (suc k) 10 (length chars) (map some chars) chars
        (ap sort_lines (header-lines (suc k) (entry_lines written))
          ∙ sort_lines-headers (suc k) (lines (entry_lines written)) (map line_of written)
              (sort_lines-entries k 0 chars all plain))
        (read_headers-written (suc k) (omega arith) small)
        (pow_int-ok 10 (suc k) (omega arith) fits ∙ ap ok size)
        (read_entries-numbered k 0 [] chars refl all plain) (full_table-some (suc k) 10 0 chars)
