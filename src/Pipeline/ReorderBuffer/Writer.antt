-- ===== src/Pipeline/ReorderBuffer/Writer.antt =====
-- The writer thread writes the chunks in order, whatever the order in which their packages arrive.
use native.Mathlib.Decide.{dec_lt}
use pi_poetry.Base.{
  ℕ, suc, ◌≤◌, ◌<◌, ◌≡◌, ◌⊎◌, inl, inr, sym, ap, ◌∙◌, All, some, List, [], ◌∷◌, ◌++◌, append_assoc,
  arith, length,
}
use pi_poetry.Pipeline.ReorderBuffer.{ReorderBuffer, Package, empty, submit, writer_loop}
use pi_poetry.Pipeline.ReorderBuffer.Invariant.{Genuine, Inv, empty-Inv, WithPackage, submit-Inv}
use pi_poetry.Pipeline.ReorderBuffer.Order.{released, Complete, Drained, drain_loop-Drained}

module _ {ℓ} {T : Type ℓ} where
  -- What has arrived when the packages `ps` are submitted too.
  abbrev ArrivedAfter : List (Package T) → (ℕ → ℕ → Type 0) → ℕ → ℕ → Type 0
  ArrivedAfter [] arrived = arrived
  ArrivedAfter (p ∷ ps) arrived = ArrivedAfter ps (WithPackage p arrived)

  -- A package with index `i` of chunk `c` is among `ps`.
  abbrev pub Submitted : List (Package T) → ℕ → ℕ → Type 0
  Submitted [] c i = ⊥
  Submitted (p ∷ ps) c i = ((p.chunk_id ≡ c) × (p.intra_id ≡ i)) ⊎ Submitted ps c i

  Submitted-ArrivedAfter :
      (ps : List (Package T)) (arrived : ℕ → ℕ → Type 0) (c i : ℕ)
      → Submitted ps c i ⊎ arrived c i
      → ArrivedAfter ps arrived c i
  Submitted-ArrivedAfter [] arrived c i (inl h) = absurd h
  Submitted-ArrivedAfter [] arrived c i (inr h) = h
  Submitted-ArrivedAfter (p ∷ ps) arrived c i (inl (inl h)) =
      Submitted-ArrivedAfter ps (WithPackage p arrived) c i (inr (inl h))
  Submitted-ArrivedAfter (p ∷ ps) arrived c i (inl (inr h)) =
      Submitted-ArrivedAfter ps (WithPackage p arrived) c i (inl h)
  Submitted-ArrivedAfter (p ∷ ps) arrived c i (inr h) =
      Submitted-ArrivedAfter ps (WithPackage p arrived) c i (inr (inr h))

module _ {ℓ} {T : Type ℓ} (content : ℕ → List T) (bound : ℕ) where
  writer_loop-Drained :
      (arrived : ℕ → ℕ → Type 0) (b : ReorderBuffer T) (ps : List (Package T))
      → ((c : ℕ) → 0 < length (content c))
      → Inv content bound arrived b
      → All (Genuine content bound) ps
      → Drained content bound (ArrivedAfter ps arrived) b (writer_loop b ps)
  unfolding writer_loop submit released
  writer_loop-Drained arrived b [] pos v g =
      drain_loop-Drained content bound arrived (suc (length b.final_idx)) b pos v (omega arith)
  writer_loop-Drained arrived b (p ∷ ps) pos v g =
      let b' = submit b p in
      let here = WithPackage p arrived in
      let first =
        drain_loop-Drained content bound here (suc (length b'.final_idx)) b' pos
          (submit-Inv content bound arrived b v p g.0) (omega arith) in
      let rest = writer_loop-Drained here first.after ps pos first.kept g.1 in
      record {
        after = rest.after;
        out = first.out ++ rest.out;
        returned = ground (arith, first.returned, rest.returned);
        kept = rest.kept;
        in_order =
            sym (append_assoc (released content bound b.next_chunk) first.out rest.out)
            ∙ ap (λ xs. xs ++ rest.out) first.in_order
            ∙ rest.in_order;
        stopped = rest.stopped;
      }

  -- For chunks that have packages, and for any order in which genuine packages of chunks below
  -- `bound` arrive (also several times, or with some missing), the writer neither throws nor loops:
  -- it writes exactly the items of the first `n` chunks in order, and where `n` is below `bound`,
  -- some package of chunk `n` never came.
  pub writer_loop-released :
      (ps : List (Package T))
      → ((c : ℕ) → 0 < length (content c))
      → All (Genuine content bound) ps
      → (n : ℕ) × (after : ReorderBuffer T) × (writer_loop empty ps
          ≡ some (after, released content bound n))
        × (n ≤ bound)
        × (n < bound → ¬ Complete content bound (Submitted ps) n)
  unfolding released
  writer_loop-released ps pos g =
      let d = writer_loop-Drained (λ c i. ⊥) empty ps pos (empty-Inv content bound) g in
      (
        d.after.next_chunk,
        d.after,
        ground (arith, d.returned, d.in_order),
        d.kept.next_bound,
        λ below all.
            d.stopped below (λ i h. Submitted-ArrivedAfter ps (λ c i. ⊥) _ i (inl (all i h))),
      )

  -- Where every package of the chunks below `bound` arrives, in any order, all of them are written,
  -- chunk by chunk and in the order of their indices.
  pub writer_loop-eq-released :
      (ps : List (Package T))
      → ((c : ℕ) → 0 < length (content c))
      → All (Genuine content bound) ps
      → ((c : ℕ) → c < bound → Complete content bound (Submitted ps) c)
      → (after : ReorderBuffer T) × (writer_loop empty ps
          ≡ some (after, released content bound bound))
  writer_loop-eq-released ps pos g all =
      let (n, after, written, most, least) = writer_loop-released ps pos g in
      elim (dec_lt n bound) [
        | yes below ↦ absurd (least below (all n below))
        | no h ↦ (
          after,
          ground (arith, ap (released content bound) (let e : n ≡ bound = omega arith in e)),
        )
      ]
