-- ===== src/Finder/Automaton/Trie.antt =====
-- The nodes as a trie: each node stands for the string on its path from the root.
pub mod Grow
pub mod Insert
pub mod Words
pub mod Dictionary
pub mod Walk
use pi_poetry.Base.{
  ℕ, ◌+◌, ◌<◌, ◌≡◌, ◌≢◌, ap, refl, Option, some, List, [], ◌∷◌, ◌++◌, length, Bytes,
}
use pi_poetry.Finder.Automaton.{AcNode, child}

-- `label u` is the string of node `u`.
pub record Trie (nodes : List AcNode) (label : ℕ → Bytes) : Type 0 where
  pub has_root : 0 < length nodes
  pub root : label 0 ≡ []
  pub injective : (u v : ℕ) → u < length nodes → v < length nodes → label u ≡ label v → u ≡ v
  pub edge :
      (u c v : ℕ)
      → u < length nodes
      → child nodes u c ≡ some v
      → (c < 26) × (v < length nodes) × (label v ≡ label u ++ (c + b'a') ∷ [])
  pub parent :
      (v : ℕ)
      → v < length nodes
      → v ≢ 0
      → (u : ℕ) × (c : ℕ) × (u < length nodes) × (child nodes u c ≡ some v)

pub snoc_nonempty : (xs : Bytes) (a : ℕ) → xs ++ a ∷ [] ≢ []
snoc_nonempty [] a e = cc e
snoc_nonempty (x ∷ xs) a e = cc e

pub snoc_injective : (xs ys : Bytes) (a b : ℕ) → xs ++ a ∷ [] ≡ ys ++ b ∷ [] → (xs ≡ ys) × (a ≡ b)
snoc_injective [] [] a b e = (refl, cc e)
snoc_injective [] (y ∷ ys) a b e =
    let t : [] ≡ ys ++ b ∷ [] = cc e in absurd (snoc_nonempty ys b (cc t))
snoc_injective (x ∷ xs) [] a b e = let t : xs ++ a ∷ [] ≡ [] = cc e in absurd (snoc_nonempty xs a t)
snoc_injective (x ∷ xs) (y ∷ ys) a b e =
    let tails : xs ++ a ∷ [] ≡ ys ++ b ∷ [] = cc e in
    let heads : x ≡ y = cc e in
    let (same, last) = snoc_injective xs ys a b tails in (cc (heads, same), last)
