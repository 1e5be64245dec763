-- ===== src/Pipeline/Stage/Queue.antt =====
-- What `push` and `pop` do to a queue.
use pi_poetry.Base.{
  ◌<◌, ◌≡◌, refl, sym, ◌∙◌, ap, true, false, Bool-cases, inl, inr, none, some, List, [], ◌∷◌, ◌++◌,
  length, ltb, ltb→lt,
}
use pi_poetry.Pipeline.Stage.{BoundedQueue, push, pop, pop_of}

module _ {A : Type 0} where
  -- A push into a queue that is not done has waited until there was room, and puts the item last.
  pub push-open :
      (b : BoundedQueue A) (item : A) (b' : BoundedQueue A)
      → b.done ≡ false
      → push b item ≡ some b'
      → (length b.q < b.capacity) × (b' ≡ record b { q = b.q ++ item ∷ [] })
  unfolding push
  push-open b item b' h e = elim (Bool-cases (ltb (length b.q) b.capacity)) [
    | inl room ↦
        let f : some (record b { q = b.q ++ item ∷ [] }) ≡ some b' = sym (rw (h, room) refl) ∙ e in
        (ltb→lt _ _ room, sym (cc f))
    | inr full ↦ let f : none ≡ some b' = sym (rw (h, full) refl) ∙ e in absurd (cc f)
  ]

  pop_of-some :
      (b : BoundedQueue A) (items : List A) (b' : BoundedQueue A) (item : A)
      → pop_of b items ≡ some (b', some item)
      → (items ≡ item ∷ b'.q) × (b'.done ≡ b.done)
  pop_of-some b [] b' item e = elim (Bool-cases b.done) [
    | inl t ↦ let f : some (b, none) ≡ some (b', some item) = sym (rw t refl) ∙ e in absurd (cc f)
    | inr t ↦ let f : none ≡ some (b', some item) = sym (rw t refl) ∙ e in absurd (cc f)
  ]
  pop_of-some b (x ∷ items) b' item e =
      let same : record b { q = items } ≡ b' = cc e in
      let first : x ≡ item = cc e in
      (rw first (ap (λ c. item ∷ c.q) same), sym (ap (λ c. c.done) same))

  -- A pop with an item takes the first one.
  pub pop-some :
      (b b' : BoundedQueue A) (item : A)
      → pop b ≡ some (b', some item)
      → (b.q ≡ item ∷ b'.q) × (b'.done ≡ b.done)
  unfolding pop
  pop-some b b' item e = pop_of-some b b.q b' item e

  pop_of-none :
      (b : BoundedQueue A) (items : List A) (b' : BoundedQueue A)
      → pop_of b items ≡ some (b', none)
      → (items ≡ []) × (b.done ≡ true)
  pop_of-none b [] b' e = elim (Bool-cases b.done) [
    | inl t ↦ (refl, t)
    | inr t ↦ let f : none ≡ some (b', none) = sym (rw t refl) ∙ e in absurd (cc f)
  ]
  pop_of-none b (x ∷ items) b' e = absurd (cc e)

  -- A pop without one found the queue done and empty.
  pub pop-none : (b b' : BoundedQueue A) → pop b ≡ some (b', none) → (b.q ≡ []) × (b.done ≡ true)
  unfolding pop
  pop-none b b' e = pop_of-none b b.q b' e
