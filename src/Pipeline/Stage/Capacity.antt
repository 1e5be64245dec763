-- ===== src/Pipeline/Stage/Capacity.antt =====
-- The back-pressure of the queues.
use pi_poetry.Base.{
  ℕ, ◌≤◌, ◌≡◌, refl, sym, ◌∙◌, ap, subst, Bool-cases, inl, inr, Option, none, some, List, [], ◌∷◌,
  ◌++◌, length, length-append, ltb, ltb→lt, arith, ◌==◌,
}
use pi_poetry.Pipeline.Stage.{
  BoundedQueue, push, pop, pop_of, Stage, Step, feed, close, claim, emit, again, exit, deliver,
  Reachable, start, step,
}

-- The queue keeps its capacity, and within it.
abbrev pub Within : {A : Type 0} → ℕ → BoundedQueue A → Type 0
Within c b = (b.capacity ≡ c) × (length b.q ≤ c)

module _ {A : Type 0} (c : ℕ) where
  push-Within :
      (b : BoundedQueue A) (item : A) (b' : BoundedQueue A)
      → Within c b
      → push b item ≡ some b'
      → Within c b'
  unfolding push
  push-Within b item b' (cap, len) e = elim (Bool-cases b.done) [
    | inl shut ↦
        let f : some b ≡ some b' = sym (rw shut refl) ∙ e in
        let same : b ≡ b' = cc f in subst (Within c) same (cap, len)
    | inr opened ↦ elim (Bool-cases (ltb (length b.q) b.capacity)) [
      | inl room ↦
          let f : some (record b { q = b.q ++ item ∷ [] }) ≡ some b' =
            sym (rw (opened, room) refl) ∙ e in
          let same : record b { q = b.q ++ item ∷ [] } ≡ b' = cc f in
          let lt = ltb→lt _ _ room in
          subst (Within c) same (cap, omega (arith, lt, length-append b.q (item ∷ [])))
      | inr full ↦ let f : none ≡ some b' = sym (rw (opened, full) refl) ∙ e in absurd (cc f)
    ]
  ]

  pop_of-Within :
      (b : BoundedQueue A) (items : List A) (b' : BoundedQueue A) (o : Option A)
      → b.q ≡ items
      → Within c b
      → pop_of b items ≡ some (b', o)
      → Within c b'
  pop_of-Within b [] b' o q w e = elim (Bool-cases b.done) [
    | inl shut ↦
        let f : some (b, none) ≡ some (b', o) = sym (rw shut refl) ∙ e in
        let same : b ≡ b' = cc f in subst (Within c) same w
    | inr opened ↦ let f : none ≡ some (b', o) = sym (rw opened refl) ∙ e in absurd (cc f)
  ]
  pop_of-Within b (x ∷ items) b' o q (cap, len) e =
      let same : record b { q = items } ≡ b' = cc e in
      subst (Within c) same (cap, omega (arith, ap length q))

  pop-Within :
      (b b' : BoundedQueue A) (o : Option A) → Within c b → pop b ≡ some (b', o) → Within c b'
  unfolding pop
  pop-Within b b' o w e = pop_of-Within b b.q b' o refl w e

module _ {In Out : Type 0} (process : In → List Out) (ic oc : ℕ) where
  abbrev BothWithin : Stage In Out → Type 0
  BothWithin s = Within ic s.in_q × Within oc s.out_q

  step-Within : (s s' : Stage In Out) → BothWithin s → Step process s s' → BothWithin s'
  step-Within s s' (i, o) (feed _ item b opened e) = (push-Within ic s.in_q item b i e, o)
  step-Within s s' (i, o) (close _) = (i, o)
  step-Within s s' (i, o) (claim _ k b pkg w e) = (pop-Within ic s.in_q b (some pkg) i e, o)
  step-Within s s' (i, o) (emit _ k result results b w e) = (i, push-Within oc s.out_q result b o e)
  step-Within s s' (i, o) (again _ k w) = (i, o)
  step-Within s s' (i, o) (exit _ k b w e) = elim (Bool-cases (s.active == 1)) [
    | inl t ↦ rw t (i, o)
    | inr t ↦ rw t (i, o)
  ]
  step-Within s s' (i, o) (deliver _ b result e) = (i, pop-Within oc s.out_q b (some result) o e)

-- In every interleaving both queues of a stage stay within the capacity that they are made with.
pub Reachable-Within :
    {In Out : Type 0} (process : In → List Out) (n in_capacity out_capacity : ℕ) (s : Stage In Out)
    → Reachable process n in_capacity out_capacity s
    → Within in_capacity s.in_q × Within out_capacity s.out_q
Reachable-Within process n ic oc s start = ((refl, omega arith), (refl, omega arith))
Reachable-Within process n ic oc s (step s0 _ r e) =
    step-Within process ic oc s0 s (Reachable-Within process n ic oc s0 r) e
