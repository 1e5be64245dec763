-- ===== src/Analyzer/Sax/Outside.antt =====
-- Outside of the phrases nothing is kept.
use pi_poetry.Base.{
  ℕ, ◌+◌, ◌-◌, ◌≤◌, ◌≡◌, ◌⊎◌, inl, inr, refl, Bool, false, none, [], ◌∷◌, ◌++◌, ◌==◌, arith, Bytes,
}
use pi_poetry.Analyzer.Stats.{Phrase}
use pi_poetry.Analyzer.Sax.{
  Scalar, null, number_integer, number_float, boolean, number_unsigned, string, scalar, key,
  start_object, end_object, start_array, end_array, PhraseStreamHandler, handle, run,
}
use pi_poetry.Analyzer.Sax.Document.{
  Json, plain, array, object, Items, no_items, item, Members, no_members, member, events,
  item_events, member_events,
}
use pi_poetry.Analyzer.Sax.Pieces.{run-one, state, Passes, Passes-nil, Passes-append, Passes-inside}

-- Outside of a phrase, `outside` at a depth where neither the array of the phrases nor a phrase opens.
module _ (phrases saw : Bool) (current : Phrase) where
  abbrev pub outside : ℕ → Bytes → PhraseStreamHandler
  outside depth k = state depth phrases false false saw k none current

  abbrev pub Calm : ℕ → Type 0
  Calm depth = (2 ≤ depth) × ((phrases ≡ false) ⊎ (3 ≤ depth))

  pub calm_scalar : (s : Scalar) (depth : ℕ) (k : Bytes) → Passes (outside depth) k (scalar s ∷ [])
  unfolding run handle
  calm_scalar null depth k = (k, inl refl, refl)
  calm_scalar number_integer depth k = (k, inl refl, refl)
  calm_scalar number_float depth k = (k, inl refl, refl)
  calm_scalar (boolean val) depth k = (k, inl refl, refl)
  calm_scalar (number_unsigned val) depth k = ([], inr refl, refl)
  calm_scalar (string val) depth k = ([], inr refl, refl)

  Calm-start_array :
      (depth : ℕ) (k : Bytes)
      → Calm depth
      → handle (outside depth k) start_array ≡ (outside (depth + 1) k, [])
  unfolding handle
  Calm-start_array depth k h = ground arith

  Calm-start_object :
      (depth : ℕ) (k : Bytes)
      → Calm depth
      → handle (outside depth k) start_object ≡ (outside (depth + 1) k, [])
  unfolding handle
  Calm-start_object depth k h = ground arith

  Calm-end_array :
      (depth : ℕ) (k : Bytes)
      → Calm depth
      → handle (outside (depth + 1) k) end_array ≡ (outside depth k, [])
  unfolding handle
  Calm-end_array depth k h = ground arith

  calm_end_object :
      (depth : ℕ) (k : Bytes) → handle (outside (depth + 1) k) end_object ≡ (outside depth k, [])
  unfolding handle
  calm_end_object depth k = let e : depth + 1 - 1 ≡ depth = omega arith in rw e refl

  Calm-key :
      (depth : ℕ) (k name : Bytes)
      → Calm depth
      → handle (outside depth k) (key name) ≡ (outside depth k, [])
  unfolding handle
  Calm-key depth k name h = let t : depth == 1 ≡ false = ground arith in rw t refl

  Calm-deeper : (depth : ℕ) → Calm depth → Calm (depth + 1)
  Calm-deeper depth (two, inl e) = (omega arith, inl e)
  Calm-deeper depth (two, inr three) = (omega arith, inr (omega arith))

  mutual
    unfolding events

    pub Calm-value :
        (v : Json) (depth : ℕ) (k : Bytes) → Calm depth → Passes (outside depth) k (events v)
    Calm-value (plain s) depth k h = calm_scalar s depth k
    Calm-value (array items) depth k h =
        Passes-inside (outside depth) (outside (depth + 1)) k start_array end_array
          (item_events items) (Calm-start_array depth k h)
          (Calm-items items (depth + 1) k (Calm-deeper depth h)) (λ k'. Calm-end_array depth k' h)
    Calm-value (object members) depth k h =
        Passes-inside (outside depth) (outside (depth + 1)) k start_object end_object
          (member_events members) (Calm-start_object depth k h)
          (Calm-members members (depth + 1) k (Calm-deeper depth h))
          (λ k'. calm_end_object depth k')

    pub Calm-items :
        (items : Items) (depth : ℕ) (k : Bytes)
        → Calm depth
        → Passes (outside depth) k (item_events items)
    Calm-items no_items depth k h = Passes-nil (outside depth) k
    Calm-items (item v rest) depth k h =
        Passes-append (outside depth) k (events v) (item_events rest) (Calm-value v depth k h)
          (λ k'. Calm-items rest depth k' h)

    pub Calm-members :
        (members : Members) (depth : ℕ) (k : Bytes)
        → Calm depth
        → Passes (outside depth) k (member_events members)
    Calm-members no_members depth k h = Passes-nil (outside depth) k
    Calm-members (member name v rest) depth k h =
        Passes-append (outside depth) k (key name ∷ []) (events v ++ member_events rest)
          (
            k,
            inl refl,
            run-one (outside depth k) (key name) (outside depth k) [] (Calm-key depth k name h),
          )
          (λ k1.
            Passes-append (outside depth) k1 (events v) (member_events rest)
              (Calm-value v depth k1 h) (λ k2. Calm-members rest depth k2 h))
