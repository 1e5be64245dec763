-- ===== src/Finder/Automaton/Trie/Words.antt =====
-- Which words `insert_word` and `load_dictionary` put into the trie.
use native.Mathlib.Decide.{ℕ_discrete, dec_lt}
use pi_poetry.Base.{
  ℕ, ◌≤◌, ◌<◌, ◌≡◌, ◌≢◌, ◌⊎◌, ◌↔◌, inl, inr, refl, sym, ap, ◌∙◌, subst, true, List, [], arith,
  length, Bytes,
}
use pi_poetry.Base.Update.{get_or-outside}
use pi_poetry.Finder.Automaton.{AcNode, fresh, node, set_word}
use pi_poetry.Finder.Automaton.Trie.{Trie}
use pi_poetry.Finder.Automaton.Trie.Grow.{
  length-set_word, output-set_word_same, output-set_word_other, set_word-Trie,
}
use pi_poetry.Finder.Automaton.Trie.Insert.{Grew, all_lower}

-- The nodes are a trie, and a node's word, if it has one, is the node's string.
pub record Represents (nodes : List AcNode) (label : ℕ → Bytes) : Type 0 where
  pub trie : Trie nodes label
  pub spelled :
      (u : ℕ)
      → u < length nodes
      → (node nodes u).output_word ≢ []
      → (node nodes u).output_word ≡ label u

-- Some node has the word `v`.
abbrev pub Contains : List AcNode → Bytes → Type 0
Contains nodes v = (v ≢ []) × ((u : ℕ) × (u < length nodes) × ((node nodes u).output_word ≡ v))

-- What `insert_word` takes.
abbrev pub Accepted : ℕ → Bytes → Type 0
Accepted min_length w = (w ≢ []) × (min_length ≤ length w) × (all_lower w ≡ true)

module _ (nodes : List AcNode) (label : ℕ → Bytes) (nodes' : List AcNode) (label' : ℕ → Bytes)
    (represents : Represents nodes label) (grew : Grew nodes label nodes' label') where
  -- A word of the grown trie is at an old node.
  in_old : (u : ℕ) (v : Bytes) → v ≢ [] → (node nodes' u).output_word ≡ v → u < length nodes
  in_old u v nonempty e = elim (dec_lt u (length nodes)) [
    | yes h ↦ h
    | no h ↦
        let f : [] ≡ v =
          sym (ap (λ x. x.output_word) (get_or-outside nodes u fresh (omega arith)))
          ∙ sym (grew.words u)
          ∙ e in
        absurd (nonempty (sym f))
  ]

  pub grown-Represents : Represents nodes' label'
  grown-Represents = record {
    trie = grew.trie;
    spelled = λ u hu nonempty.
        let old = in_old u _ nonempty refl in
        grew.words u
        ∙ represents.spelled u old (subst (λ w. w ≢ []) (grew.words u) nonempty)
        ∙ sym (grew.names u old);
  }

  pub grown-Contains : (v : Bytes) → Contains nodes' v ↔ Contains nodes v
  grown-Contains v = (
    λ (nonempty, (u, hu, e)). (nonempty, (u, in_old u v nonempty e, sym (grew.words u) ∙ e)),
    λ (nonempty, (u, hu, e)). (nonempty, (u, omega (arith, grew.more), grew.words u ∙ e)),
  )

-- A word set at the node with its string is the one word that is added.
module _ (nodes : List AcNode) (label : ℕ → Bytes) (u : ℕ) (w : Bytes)
    (represents : Represents nodes label) (hu : u < length nodes) (at : label u ≡ w) where
  pub set_word-Represents : Represents (set_word nodes u w) label
  set_word-Represents = record {
    trie = set_word-Trie nodes u w hu label represents.trie;
    spelled = λ x hx nonempty. elim (ℕ_discrete x u) [
      | yes e ↦
          subst (λ y. (node (set_word nodes u w) y).output_word ≡ label y) (sym e)
            (output-set_word_same nodes u w hu ∙ sym at)
      | no h ↦
          let kept = output-set_word_other nodes u w hu x h in
          kept
          ∙ represents.spelled x (omega (arith, length-set_word nodes u w hu))
              (subst (λ y. y ≢ []) kept nonempty)
    ];
  }

  pub set_word-Contains :
      (v : Bytes) → Contains (set_word nodes u w) v ↔ (Contains nodes v ⊎ ((w ≢ []) × (v ≡ w)))
  set_word-Contains v = (
    λ (nonempty, (x, hx, e)). elim (ℕ_discrete x u) [
      | yes same ↦
          let f : v ≡ w =
            sym e
            ∙ ap (λ y. (node (set_word nodes u w) y).output_word) same
            ∙ output-set_word_same nodes u w hu in
          inr (subst (λ y. y ≢ []) f nonempty, f)
      | no h ↦ inl (
        nonempty,
        (
          x,
          omega (arith, length-set_word nodes u w hu),
          sym (output-set_word_other nodes u w hu x h) ∙ e,
        ),
      )
    ],
    λ s. elim s [
      | inl (nonempty, (x, hx, e)) ↦ elim (ℕ_discrete x u) [
        | yes same ↦
            let f : v ≡ w =
              sym e
              ∙ represents.spelled x hx (subst (λ y. y ≢ []) (sym e) nonempty)
              ∙ ap label same
              ∙ at in
            (
              nonempty,
              (
                u,
                omega (arith, length-set_word nodes u w hu),
                output-set_word_same nodes u w hu ∙ sym f,
              ),
            )
        | no h ↦ (
          nonempty,
          (
            x,
            omega (arith, length-set_word nodes u w hu),
            output-set_word_other nodes u w hu x h ∙ e,
          ),
        )
      ]
      | inr (nonempty, f) ↦ (
        subst (λ y. y ≢ []) (sym f) nonempty,
        (u, omega (arith, length-set_word nodes u w hu), output-set_word_same nodes u w hu ∙ sym f),
      )
    ],
  )
