-- ===== src/Pipeline/Stage/Results.antt =====
-- What the stage behind has received once the output is closed and empty.
use native.Mathlib.Decide.{dec_lt}
use pi_poetry.Base.{ℕ, ◌<◌, ◌≡◌, refl, sym, ◌∙◌, ap, true, List, [], ◌∷◌, map, concat, arith}
use pi_poetry.Pipeline.Stage.{Worker, waiting, processing, finished, Stage, Reachable}
use pi_poetry.Pipeline.Stage.Sums.{total, total-append}
use pi_poetry.Pipeline.Stage.Invariant.{unfinished, held, Reachable-Sound}

-- The two lists hold the same elements, each as often.
abbrev pub SameElements : {A : Type 0} → List A → List A → Type 0
SameElements {A} xs ys = (weight : A → ℕ) → total weight xs ≡ total weight ys

total-concat :
    {In Out : Type 0} (process : In → List Out) (weight : Out → ℕ) (xs : List In)
    → total (λ p. total weight (process p)) xs ≡ total weight (concat (map process xs))
total-concat process weight [] = refl
total-concat process weight (x ∷ xs) = omega (
  arith,
  total-append weight (process x) (concat (map process xs)),
  total-concat process weight xs,
)

held-zero :
    {Out : Type 0} (weight : Out → ℕ) (ws : List (Worker Out))
    → total unfinished ws ≡ 0
    → total (held weight) ws ≡ 0
held-zero weight [] h = refl
held-zero weight (waiting ∷ ws) h = absurd (omega arith)
held-zero weight (processing results ∷ ws) h = absurd (omega arith)
held-zero weight (finished ∷ ws) h = omega (arith, held-zero weight ws (omega arith))

-- In every interleaving of one or more workers, once the output of a stage is closed and drained, what
-- came out is what `process` makes of the packages that went in, each result as often as it is made:
-- none is lost, made twice or left behind.
pub delivered-SameElements :
    {In Out : Type 0} (process : In → List Out) (n in_capacity out_capacity : ℕ) (s : Stage In Out)
    → 0 < n
    → Reachable process n in_capacity out_capacity s
    → s.out_q.done ≡ true
    → s.out_q.q ≡ []
    → SameElements s.delivered (concat (map process s.accepted))
delivered-SameElements process n ic oc s some_workers r shut drained weight =
    let h = Reachable-Sound process weight n ic oc s some_workers r in
    let idle : s.active ≡ 0 = elim (dec_lt 0 s.active) [
      | yes busy ↦ absurd (cc (h.still_open busy, shut))
      | no none_busy ↦ omega arith
    ] in
    let none_held = held-zero weight s.workers (sym h.counted ∙ idle) in
    let (_, none_left) = h.drained (omega arith) in
    omega (
      arith,
      h.conserved,
      none_held,
      ap (total (λ p. total weight (process p))) none_left,
      ap (total weight) drained,
      total-concat process weight s.accepted,
    )
