-- ===== src/Base/Update.antt =====
-- Reads after writes: of a list, by position, and of a function on numbers.
use Prim.Native.Nat.{◌≤◌, ℕ, zero, suc, ◌<◌}
use mathlib.Core.Path.{◌≡◌, refl, ap, ◌∙◌}
use mathlib.Core.Bool.{true, false}
use mathlib.Core.List.{List, [], ◌∷◌, ◌++◌}
use mathlib.Core.Logic.{◌≢◌}
use native.Mathlib.Omega.{arith}
use pi_poetry.Base.Tests.{◌==◌, if◌then◌else◌}
use pi_poetry.Base.Lists.{length, set, get_or}

abbrev pub update {ℓ} : {A : Type ℓ} → (ℕ → A) → ℕ → A → ℕ → A
update f i a j = if i == j then a else f j

module _ {ℓ} {A : Type ℓ} where
  pub length-set : (xs : List A) (i : ℕ) (v : A) → length (set xs i v) ≡ length xs
  length-set [] i v = refl
  length-set (x ∷ xs) zero v = refl
  length-set (x ∷ xs) (suc i) v = ap suc (length-set xs i v)

  pub get_or-set :
      (xs : List A) (i j : ℕ) (v d : A)
      → i < length xs
      → get_or (set xs i v) j d ≡ (if i == j then v else get_or xs j d)
  get_or-set [] i j v d h = absurd (omega arith)
  get_or-set (x ∷ xs) zero zero v d h = refl
  get_or-set (x ∷ xs) zero (suc j) v d h = ground arith
  get_or-set (x ∷ xs) (suc i) zero v d h = ground arith
  get_or-set (x ∷ xs) (suc i) (suc j) v d h = ground (arith, get_or-set xs i j v d (omega arith))

  pub get_or-append :
      (xs : List A) (y d : A) (j : ℕ)
      → get_or (xs ++ y ∷ []) j d ≡ (if j == length xs then y else get_or xs j d)
  get_or-append [] y d zero = refl
  get_or-append [] y d (suc j) = ground arith
  get_or-append (x ∷ xs) y d zero = ground arith
  get_or-append (x ∷ xs) y d (suc j) = ground (arith, get_or-append xs y d j)

  pub get_or-append_last :
      (xs : List A) (y d : A) (j : ℕ) → j ≡ length xs → get_or (xs ++ y ∷ []) j d ≡ y
  get_or-append_last xs y d j h =
      let t : j == length xs ≡ true = ground arith in get_or-append xs y d j ∙ rw t refl

  pub get_or-append_front :
      (xs : List A) (y d : A) (j : ℕ) → j ≢ length xs → get_or (xs ++ y ∷ []) j d ≡ get_or xs j d
  get_or-append_front xs y d j h =
      let t : j == length xs ≡ false = ground arith in get_or-append xs y d j ∙ rw t refl

  pub get_or-set_same :
      (xs : List A) (i : ℕ) (v d : A) → i < length xs → get_or (set xs i v) i d ≡ v
  get_or-set_same xs i v d h =
      let t : i == i ≡ true = ground arith in get_or-set xs i i v d h ∙ rw t refl

  pub get_or-set_other :
      (xs : List A) (i j : ℕ) (v d : A)
      → i < length xs
      → i ≢ j
      → get_or (set xs i v) j d ≡ get_or xs j d
  get_or-set_other xs i j v d h k =
      let t : i == j ≡ false = ground arith in get_or-set xs i j v d h ∙ rw t refl

  pub update_same : (f : ℕ → A) (i j : ℕ) (x : A) → i ≡ j → update f i x j ≡ x
  update_same f i j x h = let t : i == j ≡ true = ground arith in rw t refl

  pub update_other : (f : ℕ → A) (i j : ℕ) (x : A) → i ≢ j → update f i x j ≡ f j
  update_other f i j x h = let t : i == j ≡ false = ground arith in rw t refl

  pub get_or-outside : (xs : List A) (i : ℕ) (d : A) → length xs ≤ i → get_or xs i d ≡ d
  get_or-outside [] i d h = refl
  get_or-outside (x ∷ xs) zero d h = absurd (omega arith)
  get_or-outside (x ∷ xs) (suc i) d h = get_or-outside xs i d (omega arith)
