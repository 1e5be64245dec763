-- ===== src/GenMapping/Combos.antt =====
-- The combos that the generator assigns, as the mapping file's reader takes them.
use pi_poetry.Base.{
  ℕ, zero, suc, ◌+◌, ◌-◌, ◌*◌, ◌^◌, ◌<◌, ◌≡◌, refl, sym, ap, ◌∙◌, subst, true, false, ◌||◌, some,
  [], ◌∷◌, ◌++◌, arith, length, length-append, All, All-append, Bytes, ltb, leb, ◌==◌,
}
use pi_poetry.Base.Result.{ok}
use pi_poetry.Base.Strings.{
  is_decimal, is_space, to_string, skip_spaces, word, unless_empty, next_word,
}
use pi_poetry.Base.Strings.Numerals.{to_string-decimal, length-to_string, read-decimal}
use pi_poetry.Base.Strings.Lines.{word-append, word-All}
use pi_poetry.Digits.MappingFile.{combo_value, read_entry, two_words, first_word, second_word}
use pi_poetry.Digits.MappingFile.Lines.{Plain}
use pi_poetry.GenMapping.{zeros, combo}

abbrev Decimal : ℕ → Type 0
Decimal c = is_decimal c ≡ true

Decimal-Plain : (c : ℕ) → Decimal c → Plain c
Decimal-Plain c h = (ground arith, ground arith, ground arith)

pub All-Plain : (s : Bytes) → All Decimal s → All Plain s
All-Plain [] h = tt
All-Plain (c ∷ s) (h, hs) = (Decimal-Plain c h, All-Plain s hs)

zeros-Decimal : (n : ℕ) → All Decimal (zeros n)
zeros-Decimal zero = tt
zeros-Decimal (suc n) = (refl, zeros-Decimal n)

length-zeros : (n : ℕ) → length (zeros n) ≡ n
length-zeros zero = refl
length-zeros (suc n) = ap suc (length-zeros n)

pub combo-Decimal : (digits index : ℕ) → All Decimal (combo digits index)
combo-Decimal digits index =
    All-append Decimal (zeros (digits - length (to_string index))) (to_string index)
      (zeros-Decimal (digits - length (to_string index))) (to_string-decimal index)

pub length-combo : (k index : ℕ) → index < 10 ^ suc k → length (combo (suc k) index) ≡ suc k
length-combo k index h =
    let n = suc k - length (to_string index) in
    omega
      (arith, length-append (zeros n) (to_string index), length-zeros n, length-to_string k index h)

combo_value-step :
    (line : Bytes) (v c : ℕ) (cs : Bytes)
    → Decimal c
    → combo_value 10 line v (c ∷ cs) ≡ combo_value 10 line (v * 10 + (c - 48)) cs
unfolding combo_value
combo_value-step line v c cs h =
    let bad : (ltb c 48 || leb 58 c) ≡ false = ground arith in rw bad refl

combo_value-zeros :
    (line : Bytes) (n : ℕ) (s : Bytes)
    → combo_value 10 line 0 (zeros n ++ s) ≡ combo_value 10 line 0 s
combo_value-zeros line zero s = refl
combo_value-zeros line (suc n) s =
    combo_value-step line 0 48 (zeros n ++ s) refl ∙ combo_value-zeros line n s

pub combo_value-combo :
    (line : Bytes) (digits index : ℕ) → combo_value 10 line 0 (combo digits index) ≡ ok index
unfolding combo_value to_string
combo_value-combo line digits index =
    combo_value-zeros line (digits - length (to_string index)) (to_string index)
    ∙ read-decimal (combo_value 10 line) (combo_value-step line) index index [] (omega arith)

pub combo-cons :
    (k index : ℕ) → index < 10 ^ suc k → (c : ℕ) × (cs : Bytes) × (combo (suc k) index ≡ c ∷ cs)
combo-cons k index h = first (combo (suc k) index) (length-combo k index h)
  where
    first : (s : Bytes) → length s ≡ suc k → (c : ℕ) × (cs : Bytes) × (s ≡ c ∷ cs)
    first [] e = absurd (omega arith)
    first (c ∷ cs) e = (c, cs, refl)

spaceless : (s : Bytes) → All Plain s → All (λ c. is_space c ≡ false) s
spaceless [] h = tt
spaceless (c ∷ s) (h, hs) = (h.0, spaceless s hs)

skip_spaces-kept : (c : ℕ) (cs : Bytes) → is_space c ≡ false → skip_spaces (c ∷ cs) ≡ c ∷ cs
skip_spaces-kept c cs h = rw h refl

next_word-front :
    (c : ℕ) (cs rest : Bytes)
    → All Plain (c ∷ cs)
    → next_word (c ∷ (cs ++ (32 ∷ rest))) ≡ some (c ∷ cs, 32 ∷ rest)
next_word-front c cs rest h =
    let all = spaceless (c ∷ cs) h in
    ap (λ s. unless_empty (word s)) (skip_spaces-kept c (cs ++ (32 ∷ rest)) all.0)
    ∙ ap unless_empty (word-append (c ∷ cs) 32 rest all refl)

next_word-last : (ch : ℕ) → Plain ch → next_word (32 ∷ ch ∷ []) ≡ some (ch ∷ [], [])
next_word-last ch h =
    ap (λ s. unless_empty (word s)) (skip_spaces-kept ch [] h.0)
    ∙ ap unless_empty (word-All (ch ∷ []) (h.0, tt))

-- An entry line gives its combo, its index and its character.
pub read_entry-line :
    (k index ch : ℕ)
    → index < 10 ^ suc k
    → Plain ch
    → read_entry (suc k) 10 (combo (suc k) index ++ (32 ∷ ch ∷ []))
      ≡ ok (combo (suc k) index, index, ch)
unfolding read_entry
read_entry-line k index ch h plain =
    let line = combo (suc k) index ++ (32 ∷ ch ∷ []) in
    let (c, cs, e) = combo-cons k index h in
    let plain_combo =
      subst (All Plain) e (All-Plain (combo (suc k) index) (combo-Decimal (suc k) index)) in
    let front : next_word line ≡ some (combo (suc k) index, 32 ∷ ch ∷ []) =
      ap (λ s. next_word (s ++ (32 ∷ ch ∷ []))) e
      ∙ next_word-front c cs (ch ∷ []) plain_combo
      ∙ ap (λ s. some (s, 32 ∷ ch ∷ [])) (sym e) in
    let words : two_words line ≡ ok (combo (suc k) index, ch ∷ []) =
      ap (first_word line) front
      ∙ ap (second_word line (combo (suc k) index)) (next_word-last ch plain) in
    let fits : length (combo (suc k) index) == suc k ≡ true =
      ground (arith, length-combo k index h) in
    rw (words, fits, combo_value-combo line (suc k) index) refl
