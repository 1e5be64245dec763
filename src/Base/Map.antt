-- ===== src/Base/Map.antt =====
-- `std::map` with number keys, as the list of its entries in iteration order, which is the order
-- of the keys.
use Prim.Native.Nat.{ℕ, suc, ◌≤◌, ◌<◌}
use mathlib.Core.Path.{◌≡◌, refl, sym, ap, subst, ◌∙◌}
use mathlib.Core.Logic.{inl, inr}
use native.Mathlib.Decide.{dec_lt}
use mathlib.Core.List.{List, [], ◌∷◌}
use mathlib.Core.Option.{Option, none, some, some-ne-none, some-injective}
use native.Mathlib.Omega.{arith}
use pi_poetry.Base.Tests.{ltb, ◌==◌, if◌then◌else◌, Bool-cases}
use pi_poetry.Base.Lists.{length}

abbrev pub Map {ℓ} : Type ℓ → Type ℓ
Map V = List (ℕ × V)

module _ {ℓ} {V : Type ℓ} where
  unfoldable pub find : ℕ → Map V → Option V
  find k [] = none
  find k ((j, v) ∷ m) = if j == k then some v else find k m

  -- `m[k] = v`, also where `k` is absent.
  unfoldable pub insert : ℕ → V → Map V → Map V
  insert k v [] = (k, v) ∷ []
  insert k v ((j, w) ∷ m) =
      let rest = insert k v m in
      if ltb k j then (k, v) ∷ (j, w) ∷ m else if j == k then (k, v) ∷ m else (j, w) ∷ rest

  unfoldable pub erase : ℕ → Map V → Map V
  erase k [] = []
  erase k ((j, w) ∷ m) = if j == k then m else (j, w) ∷ erase k m

  -- The keys rise along the entries and start at `lo` or above.
  abbrev pub From : ℕ → Map V → Type 0
  From lo [] = Unit {0}
  From lo ((j, v) ∷ m) = (lo ≤ j) × From (suc j) m

  pub From-weaken : (lo hi : ℕ) (m : Map V) → lo ≤ hi → From hi m → From lo m
  From-weaken lo hi [] h f = tt
  From-weaken lo hi ((j, v) ∷ m) h f = (omega arith, f.1)

  pub find-From : (k lo : ℕ) (m : Map V) → From lo m → k < lo → find k m ≡ none
  unfolding find
  find-From k lo [] f h = refl
  find-From k lo ((j, v) ∷ m) f h = ground (arith, find-From k (suc j) m f.1)

  pub insert-From : (k lo : ℕ) (v : V) (m : Map V) → From lo m → lo ≤ k → From lo (insert k v m)
  unfolding insert
  insert-From k lo v [] f h = (h, tt)
  insert-From k lo v ((j, w) ∷ m) f h = ground (arith, insert-From k (suc j) v m f.1)

  pub erase-From : (k lo : ℕ) (m : Map V) → From lo m → From lo (erase k m)
  unfolding erase
  erase-From k lo [] f = tt
  erase-From k lo ((j, w) ∷ m) f =
      ground (arith, erase-From k (suc j) m f.1, From-weaken lo (suc j) m)

  pub find-insert :
      (k j lo : ℕ) (v : V) (m : Map V)
      → From lo m
      → find j (insert k v m) ≡ (if k == j then some v else find j m)
  unfolding find insert
  find-insert k j lo v [] f = refl
  find-insert k j lo v ((i, w) ∷ m) f = ground (arith, find-insert k j (suc i) v m f.1)

  pub find-erase :
      (k j lo : ℕ) (m : Map V)
      → From lo m
      → find j (erase k m) ≡ (if k == j then none else find j m)
  unfolding find erase
  find-erase k j lo [] f = ground arith
  find-erase k j lo ((i, w) ∷ m) f =
      ground (arith, find-erase k j (suc i) m f.1, find-From k (suc i) m f.1)

  -- Erasing a key that is there shortens the map by one entry.
  pub length-erase :
      (k : ℕ) (m : Map V) (v : V) → find k m ≡ some v → suc (length (erase k m)) ≡ length m
  unfolding find erase
  length-erase k [] v h = ground arith
  length-erase k ((i, w) ∷ m) v h = ground (arith, length-erase k m v)

  find-head : (j : ℕ) (v : V) (m : Map V) → find j ((j, v) ∷ m) ≡ some v
  unfolding find
  find-head j v m = ground arith

  -- The first keys of two maps with the same values.
  first_key :
      (j i : ℕ) (v w : V) (m n : Map V)
      → From (suc i) n
      → find j ((j, v) ∷ m) ≡ find j ((i, w) ∷ n)
      → i ≤ j
  unfolding find
  first_key j i v w m n g same = elim (dec_lt j i) [
    | yes h ↦
        let gone = find-From j i ((i, w) ∷ n) (omega arith, g) h in
        absurd (some-ne-none _ (sym (find-head j v m) ∙ same ∙ gone))
    | no h ↦ omega arith
  ]

  tail-same :
      (j : ℕ) (v w : V) (m n : Map V)
      → From (suc j) m
      → From (suc j) n
      → ((k : ℕ) → find k ((j, v) ∷ m) ≡ find k ((j, w) ∷ n))
      → (k : ℕ) → find k m ≡ find k n
  unfolding find
  tail-same j v w m n f g same k = elim (Bool-cases (j == k)) [
    | inl e ↦
        let less : k < suc j = ground arith in
        find-From k (suc j) m f less ∙ sym (find-From k (suc j) n g less)
    | inr ne ↦ rw ne at (same k)
  ]

  -- Two maps with the same values are the same list.
  pub Map-ext :
      (lo : ℕ) (m n : Map V) → From lo m → From lo n → ((k : ℕ) → find k m ≡ find k n) → m ≡ n
  unfolding find
  Map-ext lo [] [] f g same = refl
  Map-ext lo [] ((i, w) ∷ n) f g same =
      absurd (some-ne-none _ (sym (find-head i w n) ∙ sym (same i)))
  Map-ext lo ((j, v) ∷ m) [] f g same = absurd (some-ne-none _ (sym (find-head j v m) ∙ same j))
  Map-ext lo ((j, v) ∷ m) ((i, w) ∷ n) f g same =
      let low = first_key j i v w m n g.1 (same j) in
      let high = first_key i j w v n m f.1 (sym (same i)) in
      let e : i ≡ j = omega arith in
      let g' = subst (λ i. From (suc i) n) e g.1 in
      let same' = subst (λ i. (k : ℕ) → find k ((j, v) ∷ m) ≡ find k ((i, w) ∷ n)) e same in
      let value : v ≡ w = some-injective _ _ (sym (find-head j v m) ∙ same' j ∙ find-head j w n) in
      let rest = Map-ext (suc j) m n f.1 g' (tail-same j v w m n f.1 g' same') in
      ap (λ v. (j, v) ∷ m) value ∙ ap (λ i. (i, w) ∷ m) (sym e) ∙ ap (◌∷◌ (i, w)) rest
