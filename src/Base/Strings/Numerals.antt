-- ===== src/Base/Strings/Numerals.antt =====
-- A printed number: its digits, its length, and its value when it is read.
use native.Mathlib.Nat.{pow-suc, pow-zero}
use Prim.Native.Nat.{ℕ, zero, suc, ◌+◌, ◌-◌, ◌*◌, ◌/◌, ◌%◌, ◌^◌, ◌≤◌, ◌<◌}
use mathlib.Core.Path.{◌≡◌, refl, sym, ap, subst, ◌∙◌}
use mathlib.Core.Logic.{inl, inr}
use mathlib.Core.Bool.{true, false}
use mathlib.Core.Option.{some}
use mathlib.Core.List.{[], ◌∷◌}
use native.Mathlib.Omega.{arith}
use pi_poetry.Base.Tests.{ltb, leb, ◌==◌, Bool-cases, lt→ltb, ltb→lt, ltb→ge, le→leb}
use pi_poetry.Base.Lists.{All, length}
use pi_poetry.Base.Text.{Bytes}
use pi_poetry.Base.Strings.{
  is_space, is_decimal, decimal, to_string, digits_from, number, in_int, stoi, in_ulong, stoul,
}

digit-decimal : (n : ℕ) → is_decimal (n % 10 + 48) ≡ true
digit-decimal n = let h : n % 10 < 10 = omega arith in ground arith

decimal-All :
    (fuel n : ℕ) (later : Bytes)
    → All (λ c. is_decimal c ≡ true) later
    → All (λ c. is_decimal c ≡ true) (decimal fuel n later)
decimal-All zero n later h = (digit-decimal n, h)
decimal-All (suc fuel) n later h = elim (Bool-cases (ltb n 10)) [
  | inl small ↦ rw small (digit-decimal n, h)
  | inr big ↦ rw big (decimal-All fuel (n / 10) ((n % 10 + 48) ∷ later) (digit-decimal n, h))
]

length-decimal :
    (k fuel n : ℕ) (later : Bytes)
    → n < 10 ^ suc k
    → length (decimal fuel n later) ≤ suc k + length later
length-decimal k zero n later h = omega arith
length-decimal zero (suc fuel) n later h = elim (Bool-cases (ltb n 10)) [
  | inl small ↦ rw small (omega arith)
  | inr big ↦ let ge = ltb→ge n 10 big in absurd (omega (arith, pow-suc 10 0, pow-zero 10))
]
length-decimal (suc k) (suc fuel) n later h = elim (Bool-cases (ltb n 10)) [
  | inl small ↦ rw small (omega arith)
  | inr big ↦
      let less : n / 10 < 10 ^ suc k = omega (arith, pow-suc 10 (suc k)) in
      rw big (omega (arith, length-decimal k fuel (n / 10) ((n % 10 + 48) ∷ later) less))
]

-- A reader that takes decimal digits one by one reads the number.
module _ {R : Type 0} (read : ℕ → Bytes → R)
    (step : (v c : ℕ) (cs : Bytes)
      → is_decimal c ≡ true
      → read v (c ∷ cs) ≡ read (v * 10 + (c - 48)) cs) where
  one_digit :
      (v n : ℕ) (later : Bytes) → read v ((n % 10 + 48) ∷ later) ≡ read (v * 10 + n % 10) later
  one_digit v n later =
      step v (n % 10 + 48) later (digit-decimal n)
      ∙ ap (λ k. read k later)
          (let e : v * 10 + (n % 10 + 48 - 48) ≡ v * 10 + n % 10 = omega arith in e)

  pub read-decimal :
      (fuel n : ℕ) (later : Bytes) → n ≤ fuel → read 0 (decimal fuel n later) ≡ read n later
  read-decimal zero n later h =
      one_digit 0 n later ∙ ap (λ k. read k later) (let e : 0 * 10 + n % 10 ≡ n = omega arith in e)
  read-decimal (suc fuel) n later h = elim (Bool-cases (ltb n 10)) [
    | inl small ↦
        let lt = ltb→lt n 10 small in
        rw small (
          one_digit 0 n later
          ∙ ap (λ k. read k later) (let e : 0 * 10 + n % 10 ≡ n = omega arith in e))
    | inr big ↦
        let ge = ltb→ge n 10 big in
        rw big (
          read-decimal fuel (n / 10) ((n % 10 + 48) ∷ later) (omega arith)
          ∙ one_digit (n / 10) n later
          ∙ ap (λ k. read k later) (let e : n / 10 * 10 + n % 10 ≡ n = omega arith in e))
  ]

pub to_string-decimal : (n : ℕ) → All (λ c. is_decimal c ≡ true) (to_string n)
unfolding to_string
to_string-decimal n = decimal-All n n [] tt

pub length-to_string : (k n : ℕ) → n < 10 ^ suc k → length (to_string n) ≤ suc k
unfolding to_string
length-to_string k n h = omega (arith, length-decimal k n n [] h)

decimal-cons :
    (fuel n : ℕ) (later : Bytes) → (c : ℕ) × (cs : Bytes) × (decimal fuel n later ≡ c ∷ cs)
decimal-cons zero n later = (_, _, refl)
decimal-cons (suc fuel) n later = elim (Bool-cases (ltb n 10)) [
  | inl small ↦ rw small (_, _, refl)
  | inr big ↦ rw big (decimal-cons fuel (n / 10) ((n % 10 + 48) ∷ later))
]

pub to_string-cons : (n : ℕ) → (c : ℕ) × (cs : Bytes) × (to_string n ≡ c ∷ cs)
unfolding to_string
to_string-cons n = decimal-cons n n []

pub digits_from-to_string : (n : ℕ) → digits_from 0 (to_string n) ≡ n
unfolding to_string
digits_from-to_string n = read-decimal digits_from (λ v c cs d. rw d refl) n n [] (omega arith)

stoi-cons :
    (c : ℕ) (cs : Bytes)
    → is_decimal c ≡ true
    → stoi (c ∷ cs) ≡ in_int false (some (digits_from 0 (c ∷ cs)))
stoi-cons c cs d =
    let low : 48 ≤ c = ground arith in
    let high : c ≤ 57 = ground arith in
    let space : is_space c ≡ false = ground arith in
    let minus : c == b'-' ≡ false = ground arith in
    let plus : c == b'+' ≡ false = ground arith in
    let e : 0 * 10 + (c - 48) ≡ c - 48 = omega arith in rw (space, minus, plus, d, e) refl

-- A printed `int` is read back.
pub stoi-to_string : (n : ℕ) → n < 2 ^ 31 → stoi (to_string n) ≡ number false n
stoi-to_string n h =
    let (c, cs, e) = to_string-cons n in
    let all = subst (All (λ c. is_decimal c ≡ true)) e (to_string-decimal n) in
    let fits : leb n (2 ^ 31 - 1) ≡ true = le→leb n _ (omega arith) in
    ap stoi e
    ∙ stoi-cons c cs all.0
    ∙ ap (λ s. in_int false (some (digits_from 0 s))) (sym e)
    ∙ ap (λ k. in_int false (some k)) (digits_from-to_string n)
    ∙ rw fits refl

-- A printed number of 64 bits is read back.
stoul-cons :
    (c : ℕ) (cs : Bytes)
    → is_decimal c ≡ true
    → stoul (c ∷ cs) ≡ in_ulong false (some (digits_from 0 (c ∷ cs)))
stoul-cons c cs d =
    let low : 48 ≤ c = ground arith in
    let high : c ≤ 57 = ground arith in
    let space : is_space c ≡ false = ground arith in
    let minus : c == b'-' ≡ false = ground arith in
    let plus : c == b'+' ≡ false = ground arith in
    let e : 0 * 10 + (c - 48) ≡ c - 48 = omega arith in rw (space, minus, plus, d, e) refl

pub stoul-to_string : (n : ℕ) → n < 2 ^ 64 → stoul (to_string n) ≡ some n
stoul-to_string n h =
    let (c, cs, e) = to_string-cons n in
    let all = subst (All (λ c. is_decimal c ≡ true)) e (to_string-decimal n) in
    let fits : ltb n (2 ^ 64) ≡ true = lt→ltb n _ h in
    ap stoul e
    ∙ stoul-cons c cs all.0
    ∙ ap (λ s. in_ulong false (some (digits_from 0 s))) (sym e)
    ∙ ap (λ k. in_ulong false (some k)) (digits_from-to_string n)
    ∙ rw fits refl
