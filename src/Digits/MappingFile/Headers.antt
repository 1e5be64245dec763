-- ===== src/Digits/MappingFile/Headers.antt =====
-- The header loop of a mapping file.
use pi_poetry.Base.{
  ℕ, ◌≤◌, ◌≡◌, refl, sym, ap, ◌∙◌, subst, ◌||◌, Bool-cases, inl, inr, Option, none, some, List, [],
  ◌∷◌, ltb, arith, Bytes, bytes, bytes_eq, ◌^◌, ◌-◌,
}
use pi_poetry.Base.Result.{ok, err, bind-eq-ok}
use pi_poetry.Base.Strings.{Stoi, number, invalid_argument, out_of_range, stoi}
use pi_poetry.Digits.MappingFile.{
  MappingError, bad_digits_per_char, bad_base, checked, read_headers, require,
}

-- A header's number, if there is one, is in range.
abbrev pub Between : ℕ → ℕ → Option ℕ → Type 0
Between low high none = Unit
Between low high (some n) = (low ≤ n) × (n ≤ high)

checked-Between :
    (error : MappingError) (low high : ℕ) (s : Stoi) (o : Option ℕ)
    → checked error low high s ≡ ok o
    → Between low high o
checked-Between error low high (number negative n) o e =
    elim (Bool-cases (negative || ltb n low || ltb high n)) [
      | inl bad ↦ let g : err error ≡ ok o = sym (rw bad refl) ∙ e in absurd (cc g)
      | inr good ↦
          let g : ok (some n) ≡ ok o = sym (rw good refl) ∙ e in
          let same : some n ≡ o = cc g in subst (Between low high) same (ground arith, ground arith)
    ]
checked-Between error low high invalid_argument o e = absurd (cc e)
checked-Between error low high out_of_range o e = absurd (cc e)

abbrev Ranges : Option ℕ × Option ℕ → Type 0
Ranges found = Between 1 (2 ^ 31 - 1) found.0 × Between 2 10 found.1

-- Headers that are accepted leave both numbers in range.
pub read_headers-Ranges :
    (headers : List (Bytes × Bytes)) (dpc base : Option ℕ) (found : Option ℕ × Option ℕ)
    → Ranges (dpc, base)
    → read_headers headers dpc base ≡ ok found
    → Ranges found
unfolding read_headers
read_headers-Ranges [] dpc base found h e =
    let same : ◌≡◌ {A = Option ℕ × Option ℕ} (dpc, base) found = cc e in subst Ranges same h
read_headers-Ranges ((key, val) ∷ headers) dpc base found h e =
    elim (Bool-cases (bytes_eq key (bytes "digits_per_char"))) [
      | inl is_dpc ↦
          let (d, good, rest) =
            bind-eq-ok (checked bad_digits_per_char 1 (2 ^ 31 - 1) (stoi val))
              (λ d. read_headers headers d base) found (sym (rw is_dpc refl) ∙ e) in
          read_headers-Ranges headers d base found
            (checked-Between _ 1 (2 ^ 31 - 1) (stoi val) d good, h.1) rest
      | inr not_dpc ↦ elim (Bool-cases (bytes_eq key (bytes "base"))) [
        | inl is_base ↦
            let (b, good, rest) =
              bind-eq-ok (checked bad_base 2 10 (stoi val)) (λ b. read_headers headers dpc b) found
                (sym (rw (not_dpc, is_base) refl) ∙ e) in
            read_headers-Ranges headers dpc b found (h.0, checked-Between _ 2 10 (stoi val) b good)
              rest
        | inr other ↦
            read_headers-Ranges headers dpc base found h (sym (rw (not_dpc, other) refl) ∙ e)
      ]
    ]

pub require-ok : (error : MappingError) (o : Option ℕ) (n : ℕ) → require error o ≡ ok n → o ≡ some n
require-ok error none n e = absurd (cc e)
require-ok error (some m) n e = let same : m ≡ n = cc e in ap some same
