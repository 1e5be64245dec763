-- ===== src/Finder/Automaton/Trie/Insert.antt =====
-- `insert_word` and `load_dictionary`: which words the trie holds.
use pi_poetry.Base.{
  ℕ, ◌+◌, ◌-◌, ◌≤◌, ◌<◌, ◌≡◌, ◌⊎◌, inl, inr, refl, sym, ap, ◌∙◌, Option, none, some, Option-cases,
  Bool, true, false, ◌&&◌, Bool-cases, List, [], ◌∷◌, ◌++◌, append_assoc, append-nil, arith, length,
  Bytes,
}
use pi_poetry.Finder.Automaton.{AcNode, node, child, is_lower, child_or_new, insert_loop}
use pi_poetry.Finder.Automaton.Trie.{Trie}
use pi_poetry.Finder.Automaton.Trie.Grow.{
  grown, length-added, output-added_all, grown_old, grown_new, added-Trie,
}

-- The trie has grown: every old node keeps its string, and no word has changed.
pub record Grew (nodes : List AcNode) (label : ℕ → Bytes) (nodes' : List AcNode)
    (label' : ℕ → Bytes) : Type 0 where
  pub trie : Trie nodes' label'
  pub more : length nodes ≤ length nodes'
  pub names : (u : ℕ) → u < length nodes → label' u ≡ label u
  pub words : (u : ℕ) → (node nodes' u).output_word ≡ (node nodes u).output_word

child_or_new-Grew :
    (nodes : List AcNode) (label : ℕ → Bytes) (cur c : ℕ)
    → Trie nodes label
    → cur < length nodes
    → is_lower c ≡ true
    → (let next = child_or_new nodes cur (c - b'a') in
        (label' : ℕ → Bytes) × Grew nodes label next.0 label'
        × (next.1 < length next.0)
        × (label' next.1 ≡ label cur ++ c ∷ []))
unfolding child_or_new
child_or_new-Grew nodes label cur c t h lower =
    let low : 97 ≤ c = ground arith in
    let high : c ≤ 122 = ground arith in
    let back : c - 97 + 97 ≡ c = omega arith in
    elim (Option-cases (child nodes cur (c - b'a'))) [
      | inl free ↦
          rw (free, child_or_new)
            (
              grown nodes cur (c - b'a') h label t (omega arith) free,
              record {
                trie = added-Trie nodes cur (c - b'a') h label t (omega arith) free;
                more = omega (arith, length-added nodes cur (c - b'a') h);
                names = grown_old nodes cur (c - b'a') h label t (omega arith) free;
                words = output-added_all nodes cur (c - b'a') h;
              },
              omega (arith, length-added nodes cur (c - b'a') h),
              grown_new nodes cur (c - b'a') h label t (omega arith) free (length nodes) refl
                  ∙ ap (λ x. label cur ++ x ∷ []) back,
            )
      | inr (v, step) ↦
          let (_, hv, named) = t.edge cur (c - b'a') v h step in
          rw (step, child_or_new)
            (
              label,
              record { trie = t; more = omega arith; names = λ u hu. refl; words = λ u. refl },
              hv,
              named ∙ ap (λ x. label cur ++ x ∷ []) back,
            )
    ]

-- The words that `insert_word` takes are all lowercase.
abbrev pub all_lower : Bytes → Bool
all_lower [] = true
all_lower (c ∷ cs) = is_lower c && all_lower cs

abbrev pub Ends : (ℕ → Bytes) → ℕ → Bytes → List AcNode × Option ℕ → (ℕ → Bytes) → Type 0
Ends label cur w r label' =
    ((all_lower w ≡ true)
      × ((u : ℕ) × (r.1 ≡ some u) × (u < length r.0) × (label' u ≡ label cur ++ w)))
    ⊎ ((all_lower w ≡ false) × (r.1 ≡ none))

Grew-trans :
    (n1 n2 n3 : List AcNode) (l1 l2 l3 : ℕ → Bytes)
    → Grew n1 l1 n2 l2
    → Grew n2 l2 n3 l3
    → Grew n1 l1 n3 l3
Grew-trans n1 n2 n3 l1 l2 l3 g h = record {
  trie = h.trie;
  more = omega (arith, g.more, h.more);
  names = λ u hu. h.names u (omega (arith, g.more)) ∙ g.names u hu;
  words = λ u. h.words u ∙ g.words u;
}

pub insert_loop-Grew :
    (nodes : List AcNode) (label : ℕ → Bytes) (cur : ℕ) (w : Bytes)
    → Trie nodes label
    → cur < length nodes
    → (let r = insert_loop nodes cur w in
        (label' : ℕ → Bytes) × Grew nodes label r.0 label' × Ends label cur w r label')
unfolding insert_loop
insert_loop-Grew nodes label cur [] t h = (
  label,
  record { trie = t; more = omega arith; names = λ u hu. refl; words = λ u. refl },
  inl (refl, (cur, refl, h, sym (append-nil (label cur)))),
)
insert_loop-Grew nodes label cur (c ∷ cs) t h = elim (Bool-cases (is_lower c)) [
  | inl lower ↦
      let (label1, g1, in1, at1) = child_or_new-Grew nodes label cur c t h lower in
      let next = child_or_new nodes cur (c - b'a') in
      let (label2, g2, ends) = insert_loop-Grew next.0 label1 next.1 cs g1.trie in1 in
      rw lower (
        label2,
        Grew-trans _ _ _ label label1 label2 g1 g2,
        elim ends [
          | inl (low, (u, found, hu, named)) ↦ inl (
            low,
            (u, found, hu, named ∙ ap (λ x. x ++ cs) at1 ∙ append_assoc (label cur) (c ∷ []) cs),
          )
          | inr rejected ↦ inr rejected
        ],
      )
  | inr other ↦ rw other (
    label,
    record { trie = t; more = omega arith; names = λ u hu. refl; words = λ u. refl },
    inr (refl, refl),
  )
]
