-- ===== src/Pipeline/Stage/Sums.antt =====
-- Sums over a list: two lists hold the same elements, each as often, when every weight has the same
-- total on both.
use pi_poetry.Base.{ℕ, zero, suc, ◌+◌, ◌≤◌, ◌≡◌, some, List, [], ◌∷◌, ◌++◌, arith, set, get_elem?}

module _ {A : Type 0} (weight : A → ℕ) where
  abbrev pub total : List A → ℕ
  total [] = 0
  total (x ∷ xs) = weight x + total xs

  pub total-append : (xs ys : List A) → total (xs ++ ys) ≡ total xs + total ys
  total-append [] ys = omega arith
  total-append (x ∷ xs) ys = omega (arith, total-append xs ys)

  pub total-set :
      (xs : List A) (i : ℕ) (x y : A)
      → get_elem? xs i ≡ some x
      → total (set xs i y) + weight x ≡ total xs + weight y
  total-set [] i x y h = absurd (cc h)
  total-set (z ∷ zs) zero x y h = let e : z ≡ x = cc h in rw e (omega arith)
  total-set (z ∷ zs) (suc i) x y h = omega (arith, total-set zs i x y h)

  pub total-get_elem? :
      (xs : List A) (i : ℕ) (x : A) → get_elem? xs i ≡ some x → weight x ≤ total xs
  total-get_elem? [] i x h = absurd (cc h)
  total-get_elem? (z ∷ zs) zero x h = let e : z ≡ x = cc h in rw e (omega arith)
  total-get_elem? (z ∷ zs) (suc i) x h = omega (arith, total-get_elem? zs i x h)
