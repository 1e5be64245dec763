-- ===== src/GenMapping/Frequencies.antt =====
-- What `count_char_frequencies` counts.
use pi_poetry.Base.{
  ℕ, ◌+◌, ◌-◌, ◌≡◌, Bool, ◌&&◌, none, some, Option-cases, inl, inr, [], ◌∷◌, arith, Bytes, leb,
  ◌==◌, if◌then◌else◌, Option,
}
use pi_poetry.Base.Map.{Map, find, insert, From, find-insert, insert-From}
use pi_poetry.GenMapping.{lowered, count_of, count_from, count_char_frequencies}

-- How often a byte stands in the text.
abbrev pub count : ℕ → Bytes → ℕ
count b [] = 0
count b (c ∷ text) = (if c == b then 1 else 0) + count b text

abbrev pub is_lowercase : ℕ → Bool
is_lowercase l = leb b'a' l && leb l b'z'

-- How often the letter `l`, or the capital that stands 32 places before it, is in the text.
abbrev pub in_either_case : ℕ → Bytes → ℕ
in_either_case l text = if is_lowercase l then count l text + count (l - (b'a' - b'A')) text else 0

-- One byte of the text.
abbrev same_letter : ℕ → Option ℕ → ℕ
same_letter l none = 0
same_letter l (some k) = if k == l then 1 else 0

in_either_case-cons :
    (l c : ℕ) (text : Bytes)
    → in_either_case l (c ∷ text) ≡ same_letter l (lowered c) + in_either_case l text
in_either_case-cons l c text = ground arith

in_either_case-nil : (l : ℕ) → in_either_case l [] ≡ 0
in_either_case-nil l = ground arith

count_of-insert :
    (l k : ℕ) (freq : Map ℕ)
    → From 0 freq
    → count_of l (insert k (count_of k freq + 1) freq) ≡ same_letter l (some k) + count_of l freq
count_of-insert l k freq f = ground (arith, find-insert k l 0 (count_of k freq + 1) freq f)

count_of-count_from :
    (l : ℕ) (freq : Map ℕ) (text : Bytes)
    → From 0 freq
    → count_of l (count_from freq text) ≡ count_of l freq + in_either_case l text
unfolding count_from
count_of-count_from l freq [] f = omega (arith, in_either_case-nil l)
count_of-count_from l freq (c ∷ text) f =
    let one = in_either_case-cons l c text in
    rw one (elim (Option-cases (lowered c)) [
      | inl other ↦ rw (other, count_from) (omega (arith, count_of-count_from l freq text f))
      | inr (k, letter) ↦
          let freq' = insert k (count_of k freq + 1) freq in
          let f' = insert-From k 0 (count_of k freq + 1) freq f (omega arith) in
          rw (letter, count_from)
            (omega (arith, count_of-count_from l freq' text f', count_of-insert l k freq f))
    ])

-- The count of a letter from `a` to `z` is how often it and its capital stand in the text together;
-- the count of any other byte is 0.
pub count_of-count_char_frequencies :
    (l : ℕ) (text : Bytes) → count_of l (count_char_frequencies text) ≡ in_either_case l text
unfolding count_char_frequencies find
count_of-count_char_frequencies l text = omega (arith, count_of-count_from l [] text tt)
