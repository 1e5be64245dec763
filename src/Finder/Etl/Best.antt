-- ===== src/Finder/Etl/Best.antt =====
-- The map `best`: the longest word at each start.
use pi_poetry.Base.{
  ℕ, ◌≤◌, ◌≡◌, ◌⊎◌, inl, inr, some, [], ◌∷◌, arith, length, Has, add64, ◌==◌, ◌&&◌, Bool-cases,
  Option-cases,
}
use pi_poetry.Base.Map.{Map, find, From, find-insert, insert-From}
use pi_poetry.Base.Text.{Bytes}
use pi_poetry.Finder.Policy.{Raw, longer, best_step, best_from}

-- What the raw matches `raw` make of the map `before`.
pub record Best (before : Map (Bytes × ℕ)) (raw : Raw) (best : Map (Bytes × ℕ)) : Type 0 where
  pub sorted : From 0 best
  pub longest :
      (s : ℕ) (w : Bytes)
      → Has (s, w) raw
      → (v : Bytes) × (e : ℕ) × (find s best ≡ some (v, e)) × (length w ≤ length v)
  pub kept :
      (s : ℕ) (w : Bytes) (e : ℕ)
      → find s before ≡ some (w, e)
      → (v : Bytes) × (e' : ℕ) × (find s best ≡ some (v, e')) × (length w ≤ length v)
  pub sourced :
      (s : ℕ) (v : Bytes) (e : ℕ)
      → find s best ≡ some (v, e)
      → (find s before ≡ some (v, e)) ⊎ Has (s, v) raw

module _ (before : Map (Bytes × ℕ)) (s : ℕ) (w : Bytes) (f : From 0 before) where
  best_step-kept :
      (j : ℕ) (u : Bytes) (e : ℕ)
      → find j before ≡ some (u, e)
      → (v : Bytes) × (e' : ℕ) × (find j (best_step before (s, w)) ≡ some (v, e'))
        × (length u ≤ length v)
  unfolding best_step
  best_step-kept j u e h = elim (Bool-cases (longer w (find s before) && s == j)) [
    | inl new ↦ (
      w,
      add64 s (length w),
      ground (arith, find-insert s j 0 (w, add64 s (length w)) before f),
      ground arith,
    )
    | inr old ↦
        (u, e, ground (arith, find-insert s j 0 (w, add64 s (length w)) before f), ground arith)
  ]

  best_step-longest :
      (v : Bytes) × (e : ℕ) × (find s (best_step before (s, w)) ≡ some (v, e))
      × (length w ≤ length v)
  unfolding best_step
  best_step-longest = elim (Bool-cases (longer w (find s before))) [
    | inl new ↦ (
      w,
      add64 s (length w),
      ground (arith, find-insert s s 0 (w, add64 s (length w)) before f),
      ground arith,
    )
    | inr old ↦ elim (Option-cases (find s before)) [
      | inl missing ↦ absurd (ground arith)
      | inr (p, found) ↦ (p.0, p.1, ground arith, ground arith)
    ]
  ]

  best_step-sourced :
      (j : ℕ) (v : Bytes) (e : ℕ)
      → find j (best_step before (s, w)) ≡ some (v, e)
      → (find j before ≡ some (v, e)) ⊎ (◌≡◌ {A = ℕ × Bytes} (j, v) (s, w))
  unfolding best_step
  best_step-sourced j v e h = ground (arith, find-insert s j 0 (w, add64 s (length w)) before f)

  best_step-sorted : From 0 (best_step before (s, w))
  unfolding best_step
  best_step-sorted = ground (arith, insert-From s 0 (w, add64 s (length w)) before f (omega arith))

Best-cons :
    (before best : Map (Bytes × ℕ)) (j : ℕ) (u : Bytes) (raw : Raw)
    → From 0 before
    → Best (best_step before (j, u)) raw best
    → Best before ((j, u) ∷ raw) best
Best-cons before best j u raw f rest = record {
  sorted = rest.sorted;
  longest = λ s w h. elim h [
    | inl here ↦
        let (v, e, found, le) = best_step-longest before j u f in
        let (v', e', found', le') = rest.kept j v e found in (v', e', ground arith, ground arith)
    | inr later ↦ rest.longest s w later
  ];
  kept = λ s w e h.
      let (v, e', found, le) = best_step-kept before j u f s w e h in
      let (v', e'', found', le') = rest.kept s v e' found in (v', e'', found', omega arith);
  sourced = λ s v e h. elim (rest.sourced s v e h) [
    | inl old ↦ elim (best_step-sourced before j u f s v e old) [
      | inl older ↦ inl older
      | inr here ↦ inr (inl here)
    ]
    | inr later ↦ inr (inr later)
  ];
}

-- The loop keeps, for each start, a longest one of the words seen there.
pub best_from-Best :
    (before : Map (Bytes × ℕ)) (raw : Raw) → From 0 before → Best before raw (best_from before raw)
unfolding best_from
best_from-Best before [] f = record {
  sorted = f;
  longest = λ s w h. absurd h;
  kept = λ s w e h. (w, e, h, omega arith);
  sourced = λ s v e h. inl h;
}
best_from-Best before ((j, u) ∷ raw) f =
    Best-cons before _ j u raw f
      (best_from-Best (best_step before (j, u)) raw (best_step-sorted before j u f))
