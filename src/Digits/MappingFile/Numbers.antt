-- ===== src/Digits/MappingFile/Numbers.antt =====
-- The numbers of a mapping file: powers, and the values of combos.
use native.Mathlib.Nat.{pow-suc, pow-zero, mul-le-mul_right, mul_assoc, mul_comm}
use pi_poetry.Base.{
  ℕ, zero, suc, ◌+◌, ◌-◌, ◌*◌, ◌^◌, ◌≤◌, ◌<◌, ◌≡◌, refl, sym, ap, ◌∙◌, ◌||◌, Bool-cases, inl, inr,
  [], ◌∷◌, length, ltb, leb, arith, Bytes,
}
use pi_poetry.Base.Result.{ok, err, bind-eq-ok}
use pi_poetry.Digits.MappingFile.{invalid_digit, overflow, pow_int, combo_value}

pub pow_int-eq-pow : (base exp p : ℕ) → pow_int base exp ≡ ok p → (p ≡ base ^ exp)
unfolding pow_int
pow_int-eq-pow base zero p e = let f : 1 ≡ p = cc e in sym f ∙ sym (pow-zero base)
pow_int-eq-pow base (suc exp) p e =
    let (q, eq, f) = bind-eq-ok (pow_int base exp) _ p e in
    elim (Bool-cases (ltb (q * base) (2 ^ 31))) [
      | inl fits ↦
          let g : ok (q * base) ≡ ok p = sym (rw fits refl) ∙ f in
          let same : q * base ≡ p = cc g in
          sym same ∙ ap (λ n. n * base) (pow_int-eq-pow base exp q eq) ∙ sym (pow-suc base exp)
      | inr over ↦ let g : err overflow ≡ ok p = sym (rw over refl) ∙ f in absurd (cc g)
    ]

-- A value read with `k` digits more to come stays below the power of the base.
pub combo_value-lt :
    (base : ℕ) (line : Bytes) (value : ℕ) (combo : Bytes) (n : ℕ)
    → combo_value base line value combo ≡ ok n
    → n < (value + 1) * base ^ length combo
unfolding combo_value
combo_value-lt base line value [] n e =
    let same : value ≡ n = cc e in rw (pow-zero base) (omega (arith, same))
combo_value-lt base line value (c ∷ combo) n e =
    elim (Bool-cases (ltb c b'0' || leb (b'0' + base) c)) [
      | inl bad ↦ let g : err (invalid_digit c line) ≡ ok n = sym (rw bad refl) ∙ e in absurd (cc g)
      | inr good ↦
          let f : combo_value base line (value * base + (c - b'0')) combo ≡ ok n =
            sym (rw good refl) ∙ e in
          let step : value * base + (c - b'0') + 1 ≤ (value + 1) * base = grind arith in
          let p = base ^ length combo in
          let ih = combo_value-lt base line (value * base + (c - b'0')) combo n f in
          let more = mul-le-mul_right p step in
          let same : (value + 1) * base * p ≡ (value + 1) * base ^ suc (length combo) =
            mul_assoc (value + 1) base p
            ∙ ap (λ q. (value + 1) * q) (mul_comm base p ∙ sym (pow-suc base (length combo))) in
          omega arith
    ]
