-- ===== src/Analyzer/Stats/Counts.antt =====
-- The counts by length: the number of phrases of each length, modulo 2^64.

use pi_poetry.Base.{
  ℕ, suc, ◌+◌, ◌%◌, ◌^◌, ◌≡◌, Option, none, some, List, [], ◌∷◌, ◌++◌, arith, length, ◌==◌,
  if◌then◌else◌, add64,
}
use native.Mathlib.Decide.{ℕ_discrete}
use native.Mathlib.Nat.{add-zero}
use pi_poetry.Base.Map.{Map, find, insert, From, find-insert, insert-From, find-From}
use pi_poetry.Analyzer.Stats.{Phrase, count_at, add_counts}

-- The number of phrases of `len` words.
abbrev pub number_of : ℕ → List Phrase → ℕ
number_of len [] = 0
number_of len (p ∷ ps) = (if length p.words == len then 1 else 0) + number_of len ps

-- A counter that has counted `n` of something: no entry at first, then `n` modulo 2^64.
abbrev pub counted : ℕ → Option ℕ
counted n = if n == 0 then none else some (n % 2 ^ 64)

pub number_of-append :
    (len : ℕ) (ps qs : List Phrase) → number_of len (ps ++ qs) ≡ number_of len ps + number_of len qs
number_of-append len [] qs = omega arith
number_of-append len (p ∷ ps) qs = omega (arith, number_of-append len ps qs)

-- One more of length `j`.
pub find-count_insert :
    (j len n : ℕ) (m : Map ℕ)
    → From 0 m
    → find len m ≡ counted n
    → find len (insert j (add64 (count_at j m) 1) m) ≡ counted ((if j == len then 1 else 0) + n)
find-count_insert j len n m f h = ground (arith, find-insert j len 0 (add64 (count_at j m) 1) m f)

-- Adding the counters of another map, entry by entry.
pub find-add_counts :
    (len k n lo : ℕ) (m other : Map ℕ)
    → From 0 m
    → From lo other
    → find len m ≡ counted k
    → find len other ≡ counted n
    → find len (add_counts m other) ≡ counted (k + n)
unfolding add_counts find
find-add_counts len k n lo m [] f g h e = ground (arith, h)
find-add_counts len k n lo m ((j, c) ∷ other) f g h e =
    let m' = insert j (add64 (count_at j m) c) m in
    let f' = insert-From j 0 (add64 (count_at j m) c) m f (omega arith) in
    let found = find-insert j len 0 (add64 (count_at j m) c) m f in
    elim (ℕ_discrete j len) [
      | yes same ↦
          let past : find len other ≡ none = find-From len (suc j) other g.1 (omega arith) in
          let here : find len m' ≡ counted (k + n) = ground arith in
          let all = find-add_counts len (k + n) 0 (suc j) m' other f' g.1 here past in
          rw add-zero at all
      | no other_length ↦
          find-add_counts len k n (suc j) m' other f' g.1 (ground arith) (ground arith)
    ]

pub add_counts-From : (lo : ℕ) (m other : Map ℕ) → From 0 m → From 0 (add_counts m other)
unfolding add_counts
add_counts-From lo m [] f = f
add_counts-From lo m ((j, c) ∷ other) f =
    add_counts-From lo (insert j (add64 (count_at j m) c) m) other
      (insert-From j 0 (add64 (count_at j m) c) m f (omega arith))
