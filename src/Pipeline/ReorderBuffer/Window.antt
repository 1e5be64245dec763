-- ===== src/Pipeline/ReorderBuffer/Window.antt =====
-- A sorted map whose keys lie in a window of numbers: it has an entry for each of them exactly when
-- its size is the size of the window.
use pi_poetry.Base.{
  ℕ, zero, suc, ◌+◌, ◌≤◌, ◌<◌, ◌≡◌, refl, none, some, List, [], ◌∷◌, arith, length, get_elem?, drop,
}
use native.Mathlib.Decide.{dec_lt, ℕ_discrete}
use pi_poetry.Base.Map.{Map, find, From, find-From}

module _ {ℓ} {V : Type ℓ} where
  -- Every key lies below `hi`.
  abbrev pub Below : ℕ → Map V → Type 0
  Below hi [] = Unit {0}
  Below hi ((j, v) ∷ m) = (j < hi) × Below hi m

  pub length_window :
      (lo hi : ℕ) (m : Map V) → From lo m → Below hi m → lo ≤ hi → length m + lo ≤ hi
  length_window lo hi [] f b h = omega arith
  length_window lo hi ((j, v) ∷ m) f b h =
      omega (arith, length_window (suc j) hi m f.1 b.1 (omega arith))

  -- As many entries as the window has numbers: each number has one.
  pub full_window :
      (lo hi i : ℕ) (m : Map V)
      → From lo m
      → Below hi m
      → hi ≤ length m + lo
      → lo ≤ i
      → i < hi
      → (v : V) × (find i m ≡ some v)
  unfolding find
  full_window lo hi i [] f b full h k = absurd (omega arith)
  full_window lo hi i ((j, v) ∷ m) f b full h k =
      let size : length m + suc j ≤ hi = length_window (suc j) hi m f.1 b.1 (omega arith) in
      elim (ℕ_discrete j i) [
        | yes here ↦ (v, ground arith)
        | no there ↦
            let (w, found) = full_window (suc j) hi i m f.1 b.1 (omega arith) (omega arith) k in
            (w, ground arith)
      ]

  -- An entry for each number: at least as many entries as the window has numbers.
  pub covered_window :
      (lo hi : ℕ) (m : Map V)
      → From lo m
      → ((i : ℕ) → lo ≤ i → i < hi → (v : V) × (find i m ≡ some v))
      → hi ≤ length m + lo
  unfolding find
  covered_window lo hi [] f all = elim (dec_lt lo hi) [
    | yes h ↦ absurd (cc ((all lo (omega arith) h).1))
    | no h ↦ omega arith
  ]
  covered_window lo hi ((j, v) ∷ m) f all = elim (dec_lt lo hi) [
    | no h ↦ omega arith
    | yes h ↦ elim (ℕ_discrete j lo) [
      | no later ↦
          let missing : find lo m ≡ none = find-From lo (suc j) m f.1 (omega arith) in
          absurd (ground (arith, (all lo (omega arith) h).1))
      | yes here ↦ omega (
        arith,
        covered_window (suc j) hi m f.1
            (λ i a b. let (w, found) = all i (omega arith) b in (w, ground arith)),
      )
    ]
  ]

pub drop-get_elem? {ℓ} :
    {A : Type ℓ} (xs : List A) (i : ℕ) (x : A)
    → get_elem? xs i ≡ some x
    → drop i xs ≡ x ∷ drop (suc i) xs
drop-get_elem? [] i x h = cc
drop-get_elem? (y ∷ xs) zero x h = cc
drop-get_elem? (y ∷ xs) (suc i) x h = drop-get_elem? xs i x h

pub get_elem?-lt {ℓ} :
    {A : Type ℓ} (xs : List A) (i : ℕ) (x : A) → get_elem? xs i ≡ some x → i < length xs
get_elem?-lt [] i x h = cc
get_elem?-lt (y ∷ xs) zero x h = omega arith
get_elem?-lt (y ∷ xs) (suc i) x h = omega (arith, get_elem?-lt xs i x h)

pub drop_all {ℓ} : {A : Type ℓ} (xs : List A) (i : ℕ) → length xs ≤ i → drop i xs ≡ []
drop_all [] zero h = refl
drop_all [] (suc i) h = refl
drop_all (x ∷ xs) zero h = absurd (omega arith)
drop_all (x ∷ xs) (suc i) h = drop_all xs i (omega arith)
