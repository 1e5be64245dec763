-- ===== src/Base/Slices.antt =====
-- Slices of a list, `take` of a `drop`, and how they fit together.
use Prim.Native.Nat.{ℕ, zero, suc, ◌+◌, ◌-◌, ◌≤◌, min}
use mathlib.Core.Path.{◌≡◌, refl, sym, ap, ◌∙◌}
use mathlib.Core.List.{List, [], ◌∷◌, ◌++◌}
use native.Mathlib.Decide.{dec_lt}
use native.Mathlib.Omega.{arith}
use pi_poetry.Base.Lists.{length, take, drop}

pub take_nil {ℓ} : {A : Type ℓ} (n : ℕ) → take {A = A} n [] ≡ []
take_nil zero = refl
take_nil (suc n) = refl

pub drop_nil {ℓ} : {A : Type ℓ} (n : ℕ) → drop {A = A} n [] ≡ []
drop_nil zero = refl
drop_nil (suc n) = refl

pub take-take_le {ℓ} : {A : Type ℓ} (m n : ℕ) (xs : List A) → m ≤ n → take m (take n xs) ≡ take m xs
take-take_le zero n xs h = refl
take-take_le (suc m) zero xs h = absurd (omega arith)
take-take_le (suc m) (suc n) [] h = refl
take-take_le (suc m) (suc n) (x ∷ xs) h = ap (◌∷◌ x) (take-take_le m n xs (omega arith))

pub take-take_ge {ℓ} : {A : Type ℓ} (m n : ℕ) (xs : List A) → n ≤ m → take m (take n xs) ≡ take n xs
take-take_ge m zero xs h = take_nil m
take-take_ge zero (suc n) xs h = absurd (omega arith)
take-take_ge (suc m) (suc n) [] h = refl
take-take_ge (suc m) (suc n) (x ∷ xs) h = ap (◌∷◌ x) (take-take_ge m n xs (omega arith))

pub take-take {ℓ} : {A : Type ℓ} (m n : ℕ) (xs : List A) → take m (take n xs) ≡ take (min m n) xs
take-take m n xs = elim (dec_lt m n) [
  | yes h ↦
      take-take_le m n xs (omega arith)
      ∙ ap (λ k. take k xs) (let e : m ≡ min m n = omega arith in e)
  | no h ↦
      take-take_ge m n xs (omega arith)
      ∙ ap (λ k. take k xs) (let e : n ≡ min m n = omega arith in e)
]

pub take-append-take {ℓ} :
    {A : Type ℓ} (m n : ℕ) (xs : List A) → take m xs ++ take n (drop m xs) ≡ take (m + n) xs
take-append-take zero n xs = ap (λ k. take k xs) (let e : n ≡ 0 + n = omega arith in e)
take-append-take (suc m) n [] = take_nil n ∙ sym (take_nil (suc m + n))
take-append-take (suc m) n (x ∷ xs) =
    ap (◌∷◌ x) (take-append-take m n xs)
    ∙ ap (λ k. take k (x ∷ xs)) (let e : suc (m + n) ≡ suc m + n = omega arith in e)

pub drop-take {ℓ} :
    {A : Type ℓ} (i n : ℕ) (xs : List A) → drop i (take n xs) ≡ take (n - i) (drop i xs)
drop-take zero n xs = rw (let e : n - 0 ≡ n = omega arith in e)
drop-take (suc i) zero xs = rw (let e : 0 - suc i ≡ 0 = omega arith in e)
drop-take (suc i) (suc n) [] = sym (take_nil (suc n - suc i))
drop-take (suc i) (suc n) (x ∷ xs) =
    drop-take i n xs
    ∙ ap (λ k. take k (drop i xs)) (let e : n - i ≡ suc n - suc i = omega arith in e)

pub drop-drop {ℓ} : {A : Type ℓ} (i j : ℕ) (xs : List A) → drop i (drop j xs) ≡ drop (j + i) xs
drop-drop i zero xs = ap (λ k. drop k xs) (let e : i ≡ 0 + i = omega arith in e)
drop-drop i (suc j) [] = drop_nil i ∙ sym (drop_nil (suc j + i))
drop-drop i (suc j) (x ∷ xs) =
    drop-drop i j xs
    ∙ ap (λ k. drop k (x ∷ xs)) (let e : suc (j + i) ≡ suc j + i = omega arith in e)

pub take_length {ℓ} : {A : Type ℓ} (n : ℕ) (xs : List A) → take (min n (length xs)) xs ≡ take n xs
take_length zero xs = rw (let e : min 0 (length xs) ≡ 0 = omega arith in e)
take_length (suc n) [] = rw (let e : min (suc n) 0 ≡ 0 = omega arith in e)
take_length (suc n) (x ∷ xs) =
    rw (let e : min (suc n) (suc (length xs)) ≡ suc (min n (length xs)) = omega arith in e)
      (ap (◌∷◌ x) (take_length n xs))

pub nil_of_length {ℓ} : {A : Type ℓ} (xs : List A) → length xs ≡ 0 → xs ≡ []
nil_of_length [] h = refl
nil_of_length (x ∷ xs) h = absurd (omega arith)

pub take-append_le {ℓ} :
    {A : Type ℓ} (n : ℕ) (xs ys : List A) → n ≤ length xs → take n (xs ++ ys) ≡ take n xs
take-append_le zero xs ys h = refl
take-append_le (suc n) [] ys h = absurd (omega arith)
take-append_le (suc n) (x ∷ xs) ys h = ap (◌∷◌ x) (take-append_le n xs ys (omega arith))

pub drop-append_le {ℓ} :
    {A : Type ℓ} (n : ℕ) (xs ys : List A) → n ≤ length xs → drop n (xs ++ ys) ≡ drop n xs ++ ys
drop-append_le zero xs ys h = refl
drop-append_le (suc n) [] ys h = absurd (omega arith)
drop-append_le (suc n) (x ∷ xs) ys h = drop-append_le n xs ys (omega arith)

pub take_whole {ℓ} : {A : Type ℓ} (xs ys : List A) → take (length xs) (xs ++ ys) ≡ xs
take_whole [] ys = refl
take_whole (x ∷ xs) ys = ap (◌∷◌ x) (take_whole xs ys)

pub drop_whole {ℓ} : {A : Type ℓ} (xs ys : List A) → drop (length xs) (xs ++ ys) ≡ ys
drop_whole [] ys = refl
drop_whole (x ∷ xs) ys = drop_whole xs ys
