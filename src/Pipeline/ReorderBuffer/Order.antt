-- ===== src/Pipeline/ReorderBuffer/Order.antt =====
-- A drain: it writes the chunks that are complete, in order, up to the first that is not.
use native.Mathlib.Decide.{ℕ_discrete}
use pi_poetry.Base.{
  ℕ, zero, suc, ◌+◌, ◌-◌, ◌≤◌, ◌<◌, ◌≡◌, ◌≢◌, inl, inr, sym, ◌∙◌, Option-cases, Option, none, some,
  List, [], ◌∷◌, ◌++◌, append_assoc, append-nil, arith, length, get_elem?, drop,
}
use pi_poetry.Base.Map.{Map, find, length-erase, From}
use pi_poetry.Pipeline.ReorderBuffer.{
  ReorderBuffer, entry, with_entry, advance, collect, drain_loop,
}
use pi_poetry.Pipeline.ReorderBuffer.Window.{
  Below, length_window, full_window, covered_window, drop-get_elem?, get_elem?-lt, drop_all,
}
use pi_poetry.Pipeline.ReorderBuffer.Invariant.{Inv, with_entry-Inv, advance-Inv}

module _ {ℓ} {T : Type ℓ} where
  -- A map that has the items of `xs`, and an entry for each index, yields the rest of `xs`.
  collect-drop :
      (n i : ℕ) (xs : List T) (inner : Map T)
      → i + n ≡ length xs
      → ((j : ℕ) → j < length xs → (x : T) × (find j inner ≡ some x))
      → ((j : ℕ) (x : T) → find j inner ≡ some x → get_elem? xs j ≡ some x)
      → collect n i inner ≡ some (drop i xs)
  unfolding collect
  collect-drop zero i xs inner e total sound = rw (drop_all xs i (omega arith))
  collect-drop (suc n) i xs inner e total sound =
      let (x, found) = total i (omega arith) in
      ground (
        arith,
        collect-drop n (suc i) xs inner (omega arith) total sound,
        drop-get_elem? xs i x (sound i x found),
      )

  sound-Below :
      (lo : ℕ) (xs : List T) (inner : Map T)
      → From lo inner
      → ((j : ℕ) (x : T) → lo ≤ j → find j inner ≡ some x → get_elem? xs j ≡ some x)
      → Below (length xs) inner
  unfolding find
  sound-Below lo xs [] f sound = tt
  sound-Below lo xs ((j, v) ∷ m) f sound = (
    get_elem?-lt xs j v (sound j v f.0 (ground arith)),
    sound-Below (suc j) xs m f.1 (λ i x h e. sound i x (omega arith) (ground arith)),
  )

module _ {ℓ} {T : Type ℓ} (content : ℕ → List T) (bound : ℕ) where
  -- The items of the first `n` chunks, in order.
  unfoldable pub released : ℕ → List T
  released zero = []
  released (suc n) = released n ++ content n

  -- Every package of chunk `c` was submitted.
  abbrev pub Complete : (ℕ → ℕ → Type 0) → ℕ → Type 0
  Complete arrived c = (i : ℕ) → i < length (content c) → arrived c i

  module _ (arrived : ℕ → ℕ → Type 0) where
    -- A chunk of the right size is there as a whole.
    collect-content :
        (b : ReorderBuffer T) (k : ℕ)
        → Inv content bound arrived b
        → find b.next_chunk b.final_idx ≡ some k
        → length (entry b.next_chunk b.pending) ≡ k + 1
        → collect (k + 1) 0 (entry b.next_chunk b.pending) ≡ some (content b.next_chunk)
    collect-content b k v final size =
        let c = b.next_chunk in
        let xs = content c in
        let inner = entry c b.pending in
        let len : length xs ≡ suc k = v.final_sound c k final in
        collect-drop (k + 1) 0 xs inner (omega arith)
          (λ j h.
            full_window 0 (length xs) j inner (v.inner_sorted c)
              (sound-Below 0 xs inner (v.inner_sorted c) (λ i x _. v.held_sound c i x))
              (omega arith) (omega arith) h)
          (v.held_sound c)

    -- What a drain that returns has done.
    pub record Drained (b : ReorderBuffer T) (r : Option (ReorderBuffer T × List T)) : Type ℓ where
      pub after : ReorderBuffer T
      pub out : List T
      pub returned : r ≡ some (after, out)
      pub kept : Inv content bound arrived after
      pub in_order : released b.next_chunk ++ out ≡ released after.next_chunk
      pub stopped : after.next_chunk < bound → ¬ Complete arrived after.next_chunk

    -- With no final package for it, the next chunk is not complete.
    no_final-not-Complete :
        (b : ReorderBuffer T)
        → Inv content bound arrived b
        → 0 < length (content b.next_chunk)
        → find b.next_chunk b.final_idx ≡ none
        → ¬ Complete arrived b.next_chunk
    no_final-not-Complete b v pos missing all =
        let last = length (content b.next_chunk) - 1 in
        cc (v.final_held b.next_chunk last (omega arith) (all last (omega arith)) (omega arith))

    -- Neither is it with a wrong number of packages.
    wrong_size-not-Complete :
        (b : ReorderBuffer T) (k : ℕ)
        → Inv content bound arrived b
        → find b.next_chunk b.final_idx ≡ some k
        → length (entry b.next_chunk b.pending) ≢ k + 1
        → ¬ Complete arrived b.next_chunk
    wrong_size-not-Complete b k v final wrong all =
        let c = b.next_chunk in
        let xs = content c in
        let inner = entry c b.pending in
        let len : length xs ≡ suc k = v.final_sound c k final in
        let below = sound-Below 0 xs inner (v.inner_sorted c) (λ i x _. v.held_sound c i x) in
        let most = length_window 0 (length xs) inner (v.inner_sorted c) below (omega arith) in
        let least =
          covered_window 0 (length xs) inner (v.inner_sorted c)
            (λ i _ h. v.held c i (omega arith) (all i h)) in
        wrong (omega arith)

    pub drain_loop-Drained :
        (fuel : ℕ) (b : ReorderBuffer T)
        → ((c : ℕ) → 0 < length (content c))
        → Inv content bound arrived b
        → length b.final_idx < fuel
        → Drained b (drain_loop fuel b)
    unfolding drain_loop released
    drain_loop-Drained zero b pos v enough = absurd (omega arith)
    drain_loop-Drained (suc fuel) b pos v enough =
        elim (Option-cases (find b.next_chunk b.final_idx)) [
          | inl missing ↦ record {
            after = b;
            out = [];
            returned = ground arith;
            kept = v;
            in_order = append-nil _;
            stopped = λ _. no_final-not-Complete b v (pos b.next_chunk) missing;
          }
          | inr (k, final) ↦ elim (ℕ_discrete (length (entry b.next_chunk b.pending)) (k + 1)) [
            | no wrong ↦ record {
              after = with_entry b;
              out = [];
              returned = ground arith;
              kept = with_entry-Inv content bound arrived b v;
              in_order = append-nil _;
              stopped = λ _. wrong_size-not-Complete b k v final wrong;
            }
            | yes size ↦
                let rest =
                  drain_loop-Drained fuel (advance (with_entry b)) pos
                    (advance-Inv content bound arrived (with_entry b)
                      (with_entry-Inv content bound arrived b v)
                      (v.final_bound b.next_chunk k final))
                    (omega (arith, length-erase b.next_chunk b.final_idx k final)) in
                record {
                  after = rest.after;
                  out = content b.next_chunk ++ rest.out;
                  returned = ground (arith, rest.returned, collect-content b k v final size);
                  kept = rest.kept;
                  in_order =
                      sym (append_assoc (released b.next_chunk) (content b.next_chunk) rest.out)
                      ∙ rest.in_order;
                  stopped = rest.stopped;
                }
          ]
        ]
