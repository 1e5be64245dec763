-- ===== src/Pipeline/ReorderBuffer/Invariant.antt =====
-- What the reorder buffer holds: packages of known chunks only, and all that have arrived and are
-- not yet written.
use native.Mathlib.Decide.{ℕ_discrete}
use pi_poetry.Base.{
  ℕ, suc, ◌≤◌, ◌<◌, ◌≡◌, ◌⊎◌, inl, inr, Bool-cases, ◌&&◌, ◌∙◌, ap, some, List, [], arith, length,
  get_elem?, ◌==◌, if◌then◌else◌,
}
use pi_poetry.Base.Map.{
  Map, find, insert, erase, From, insert-From, erase-From, find-insert, find-erase,
}
use pi_poetry.Pipeline.ReorderBuffer.{
  ReorderBuffer, Package, empty, entry, submit, with_entry, advance,
}

module _ {ℓ} {T : Type ℓ} where
  -- `arrived`, once `p` is submitted too.
  abbrev pub WithPackage : Package T → (ℕ → ℕ → Type 0) → ℕ → ℕ → Type 0
  WithPackage p arrived c i = ((p.chunk_id ≡ c) × (p.intra_id ≡ i)) ⊎ arrived c i

  pub entry-insert :
      (k c : ℕ) (v : Map T) (m : Map (Map T))
      → From 0 m
      → entry c (insert k v m) ≡ (if k == c then v else entry c m)
  entry-insert k c v m f = ground (arith, find-insert k c 0 v m f)

  -- What is found after a submission.
  pub find-submit :
      (b : ReorderBuffer T) (p : Package T) (c i : ℕ)
      → From 0 b.pending
      → From 0 (entry p.chunk_id b.pending)
      → find i (entry c (submit b p).pending) ≡ (
          if p.chunk_id == c
          then (if p.intra_id == i then some p.item else find i (entry p.chunk_id b.pending))
          else find i (entry c b.pending))
  unfolding submit
  find-submit b p c i f g =
      let inner = entry p.chunk_id b.pending in
      rw (entry-insert p.chunk_id c (insert p.intra_id p.item inner) b.pending f)
        (elim (Bool-cases (p.chunk_id == c)) [
          | inl here ↦ rw here (find-insert p.intra_id i 0 p.item inner g)
          | inr there ↦ rw there
        ])

  pub final-submit :
      (b : ReorderBuffer T) (p : Package T) (c : ℕ)
      → From 0 b.final_idx
      → find c (submit b p).final_idx
        ≡ (if p.is_final && p.chunk_id == c then some p.intra_id else find c b.final_idx)
  unfolding submit
  final-submit b p c f = ground (arith, find-insert p.chunk_id c 0 p.intra_id b.final_idx f)

  pub entry-with_entry :
      (b : ReorderBuffer T) (c : ℕ)
      → From 0 b.pending
      → entry c (with_entry b).pending ≡ entry c b.pending
  entry-with_entry b c f =
      entry-insert b.next_chunk c (entry b.next_chunk b.pending) b.pending f
      ∙ elim (ℕ_discrete b.next_chunk c) [
        | yes same ↦ rw same (ground arith)
        | no other ↦ ground arith
      ]

  pub entry-erase :
      (k c : ℕ) (m : Map (Map T))
      → From 0 m
      → entry c (erase k m) ≡ (if k == c then [] else entry c m)
  entry-erase k c m f = ground (arith, find-erase k c 0 m f)

-- `content c` is what the stages upstream produce for chunk `c`: the items of its packages, by their
-- index in the chunk. Chunks are numbered below `bound`.
module _ {ℓ} {T : Type ℓ} (content : ℕ → List T) (bound : ℕ) where
  -- A package as the upstream stages make it.
  pub record Genuine (p : Package T) : Type ℓ where
    pub in_chunk : get_elem? (content p.chunk_id) p.intra_id ≡ some p.item
    pub final_exact : p.is_final ≡ (suc p.intra_id == length (content p.chunk_id))
    pub in_bound : p.chunk_id < bound

  -- `arrived c i`: the package with index `i` of chunk `c` was submitted.
  pub record Inv (arrived : ℕ → ℕ → Type 0) (b : ReorderBuffer T) : Type ℓ where
    pub pending_sorted : From 0 b.pending
    pub final_sorted : From 0 b.final_idx
    pub inner_sorted : (c : ℕ) → From 0 (entry c b.pending)
    pub held_sound :
        (c i : ℕ) (x : T) → find i (entry c b.pending) ≡ some x → get_elem? (content c) i ≡ some x
    pub final_sound : (c k : ℕ) → find c b.final_idx ≡ some k → length (content c) ≡ suc k
    pub final_bound : (c k : ℕ) → find c b.final_idx ≡ some k → c < bound
    pub held :
        (c i : ℕ) → b.next_chunk ≤ c → arrived c i → (x : T) × (find i (entry c b.pending) ≡ some x)
    pub final_held :
        (c i : ℕ)
        → b.next_chunk ≤ c
        → arrived c i
        → suc i ≡ length (content c)
        → find c b.final_idx ≡ some i
    pub next_bound : b.next_chunk ≤ bound

  pub empty-Inv : Inv (λ c i. ⊥) empty
  unfolding find
  empty-Inv = record {
    pending_sorted = tt;
    final_sorted = tt;
    inner_sorted = λ c. tt;
    held_sound = λ c i x h. cc;
    final_sound = λ c k h. cc;
    final_bound = λ c k h. cc;
    held = λ c i h a. absurd a;
    final_held = λ c i h a e. absurd a;
    next_bound = omega arith;
  }

  module _ (arrived : ℕ → ℕ → Type 0) (b : ReorderBuffer T) (v : Inv arrived b) where
    submit-held :
        (p : Package T) (c i : ℕ)
        → b.next_chunk ≤ c
        → WithPackage p arrived c i
        → (x : T) × (find i (entry c (submit b p).pending) ≡ some x)
    submit-held p c i n a =
        rw (find-submit b p c i v.pending_sorted (v.inner_sorted p.chunk_id))
          (elim (Bool-cases (p.chunk_id == c && p.intra_id == i)) [
            | inl same ↦ (p.item, ground arith)
            | inr other ↦ elim a [
              | inl here ↦ (p.item, ground arith)
              | inr before ↦ let (x, found) = v.held c i n before in (x, ground arith)
            ]
          ])

    submit-final_held :
        (p : Package T)
        → Genuine p
        → (c i : ℕ) → b.next_chunk ≤ c
        → WithPackage p arrived c i
        → suc i ≡ length (content c)
        → find c (submit b p).final_idx ≡ some i
    submit-final_held p g c i n a l = rw (final-submit b p c v.final_sorted) (elim a [
      | inl here ↦ ground (arith, g.final_exact, ap (λ k. length (content k)) here.0)
      | inr before ↦ ground (
        arith,
        g.final_exact,
        v.final_held c i n before l,
        λ (e : p.chunk_id ≡ c). ap (λ k. length (content k)) e,
      )
    ])

    -- Submitting a genuine package keeps the invariant.
    pub submit-Inv : (p : Package T) → Genuine p → Inv (WithPackage p arrived) (submit b p)
    unfolding submit
    submit-Inv p g = record {
      pending_sorted = insert-From p.chunk_id 0 _ b.pending v.pending_sorted (omega arith);
      final_sorted = ground (arith, insert-From p.chunk_id 0 p.intra_id b.final_idx v.final_sorted);
      inner_sorted = λ c. rw (entry-insert p.chunk_id c _ b.pending v.pending_sorted) (
          ground (
            arith,
            v.inner_sorted c,
            insert-From p.intra_id 0 p.item (entry p.chunk_id b.pending)
                (v.inner_sorted p.chunk_id),
          ));
      held_sound = λ c i x e. ground (
        arith,
        find-submit b p c i v.pending_sorted (v.inner_sorted p.chunk_id),
        v.held_sound c i x,
        g.in_chunk,
      );
      final_sound = λ c k e.
          ground (arith, final-submit b p c v.final_sorted, v.final_sound c k, g.final_exact);
      final_bound =
          λ c k e. ground (arith, final-submit b p c v.final_sorted, v.final_bound c k, g.in_bound);
      held = submit-held p;
      final_held = submit-final_held p g;
      next_bound = v.next_bound;
    }

    -- `pending_[next_chunk_]` shows nothing new.
    pub with_entry-Inv : Inv arrived (with_entry b)
    with_entry-Inv = record {
      pending_sorted = insert-From b.next_chunk 0 _ b.pending v.pending_sorted (omega arith);
      final_sorted = v.final_sorted;
      inner_sorted = λ c. rw (entry-with_entry b c v.pending_sorted) (v.inner_sorted c);
      held_sound = λ c i x. rw (entry-with_entry b c v.pending_sorted) (v.held_sound c i x);
      final_sound = v.final_sound;
      final_bound = v.final_bound;
      held = λ c i h a. rw (entry-with_entry b c v.pending_sorted) (v.held c i h a);
      final_held = v.final_held;
      next_bound = v.next_bound;
    }

    -- Neither does the removal of the chunk that was written.
    pub advance-Inv : b.next_chunk < bound → Inv arrived (advance b)
    unfolding find
    advance-Inv h = record {
      pending_sorted = erase-From b.next_chunk 0 b.pending v.pending_sorted;
      final_sorted = erase-From b.next_chunk 0 b.final_idx v.final_sorted;
      inner_sorted = λ c.
          rw (entry-erase b.next_chunk c b.pending v.pending_sorted)
            (ground (arith, v.inner_sorted c));
      held_sound = λ c i x e.
          ground (arith, entry-erase b.next_chunk c b.pending v.pending_sorted, v.held_sound c i x);
      final_sound = λ c k e.
          ground (arith, find-erase b.next_chunk c 0 b.final_idx v.final_sorted, v.final_sound c k);
      final_bound = λ c k e.
          ground (arith, find-erase b.next_chunk c 0 b.final_idx v.final_sorted, v.final_bound c k);
      held = λ c i n a.
          let (x, found) = v.held c i (omega arith) a in
          (x, ground (arith, entry-erase b.next_chunk c b.pending v.pending_sorted));
      final_held = λ c i n a l. ground (
        arith,
        find-erase b.next_chunk c 0 b.final_idx v.final_sorted,
        v.final_held c i (omega arith) a l,
      );
      next_bound = h;
    }
