-- ===== src/Analyzer/Sax/Skipped.antt =====
-- Inside a value that is skipped nothing is kept.
use pi_poetry.Base.{
  ℕ, ◌+◌, ◌-◌, ◌≤◌, ◌≡◌, inl, inr, refl, Bool, true, false, some, [], ◌∷◌, ◌++◌, ◌==◌, arith, Bytes,
}
use pi_poetry.Analyzer.Stats.{Phrase}
use pi_poetry.Analyzer.Sax.{
  Scalar, null, number_integer, number_float, boolean, number_unsigned, string, scalar, key,
  start_object, end_object, start_array, end_array, PhraseStreamHandler, handle, run,
}
use pi_poetry.Analyzer.Sax.Document.{
  Json, plain, array, object, Items, no_items, item, Members, no_members, member, events,
  item_events, member_events,
}
use pi_poetry.Analyzer.Sax.Pieces.{run-one, state, Passes, Passes-nil, Passes-append, Passes-inside}

-- Inside a value that is skipped from depth `d` on.
module _ (d : ℕ) (deep : 4 ≤ d) (phrases words saw : Bool) (current : Phrase) where
  abbrev pub skipping : ℕ → Bytes → PhraseStreamHandler
  skipping depth k = state depth phrases true words saw k (some d) current

  skip_scalar : (s : Scalar) (depth : ℕ) (k : Bytes) → Passes (skipping depth) k (scalar s ∷ [])
  unfolding run handle
  skip_scalar null depth k = (k, inl refl, refl)
  skip_scalar number_integer depth k = (k, inl refl, refl)
  skip_scalar number_float depth k = (k, inl refl, refl)
  skip_scalar (boolean val) depth k = (k, inl refl, refl)
  skip_scalar (number_unsigned val) depth k = ([], inr refl, refl)
  skip_scalar (string val) depth k = ([], inr refl, ground arith)

  skip_start_array :
      (depth : ℕ) (k : Bytes)
      → d ≤ depth
      → handle (skipping depth k) start_array ≡ (skipping (depth + 1) k, [])
  unfolding handle
  skip_start_array depth k h = ground arith

  skip_start_object :
      (depth : ℕ) (k : Bytes)
      → d ≤ depth
      → handle (skipping depth k) start_object ≡ (skipping (depth + 1) k, [])
  unfolding handle
  skip_start_object depth k h = ground arith

  skip_end :
      (depth : ℕ) (k : Bytes)
      → d ≤ depth
      → (handle (skipping (depth + 1) k) end_array ≡ (skipping depth k, []))
        × (handle (skipping (depth + 1) k) end_object ≡ (skipping depth k, []))
  unfolding handle
  skip_end depth k h =
      let t : depth + 1 == d ≡ false = ground arith in
      let e : depth + 1 - 1 ≡ depth = omega arith in (rw (t, e) refl, rw (t, e) refl)

  skip_key :
      (depth : ℕ) (k name : Bytes)
      → d ≤ depth
      → handle (skipping depth k) (key name) ≡ (skipping depth k, [])
  unfolding handle
  skip_key depth k name h = let t : depth == 1 ≡ false = ground arith in rw t refl

  mutual
    unfolding events

    pub skip_value :
        (v : Json) (depth : ℕ) (k : Bytes) → d ≤ depth → Passes (skipping depth) k (events v)
    skip_value (plain s) depth k h = skip_scalar s depth k
    skip_value (array items) depth k h =
        Passes-inside (skipping depth) (skipping (depth + 1)) k start_array end_array
          (item_events items) (skip_start_array depth k h)
          (skip_items items (depth + 1) k (omega arith)) (λ k'. (skip_end depth k' h).0)
    skip_value (object members) depth k h =
        Passes-inside (skipping depth) (skipping (depth + 1)) k start_object end_object
          (member_events members) (skip_start_object depth k h)
          (skip_members members (depth + 1) k (omega arith)) (λ k'. (skip_end depth k' h).1)

    pub skip_items :
        (items : Items) (depth : ℕ) (k : Bytes)
        → d ≤ depth
        → Passes (skipping depth) k (item_events items)
    skip_items no_items depth k h = Passes-nil (skipping depth) k
    skip_items (item v rest) depth k h =
        Passes-append (skipping depth) k (events v) (item_events rest) (skip_value v depth k h)
          (λ k'. skip_items rest depth k' h)

    pub skip_members :
        (members : Members) (depth : ℕ) (k : Bytes)
        → d ≤ depth
        → Passes (skipping depth) k (member_events members)
    skip_members no_members depth k h = Passes-nil (skipping depth) k
    skip_members (member name v rest) depth k h =
        Passes-append (skipping depth) k (key name ∷ []) (events v ++ member_events rest)
          (
            k,
            inl refl,
            run-one (skipping depth k) (key name) (skipping depth k) [] (skip_key depth k name h),
          )
          (λ k1.
            Passes-append (skipping depth) k1 (events v) (member_events rest)
              (skip_value v depth k1 h) (λ k2. skip_members rest depth k2 h))
