-- ===== src/Finder/Automaton/Trie/Grow.antt =====
-- A child added to the trie, and a word set at a node.
use native.Mathlib.Decide.{ℕ_discrete}
use pi_poetry.Base.{
  ℕ, suc, ◌+◌, ◌<◌, ◌≡◌, ◌≢◌, ◌⊎◌, inl, inr, refl, sym, ap, ◌∙◌, subst, none, some, List, [], ◌∷◌,
  ◌++◌, arith, set, length, length-append, Bytes,
}
use pi_poetry.Base.Update.{
  update, length-set, get_or-append_last, get_or-append_front, get_or-set_same, get_or-set_other,
  get_or-outside, update_same, update_other,
}
use pi_poetry.Finder.Automaton.{AcNode, fresh, node, child, set_child, set_word}
use pi_poetry.Finder.Automaton.Trie.{Trie, snoc_nonempty, snoc_injective}

module _ (nodes : List AcNode) (cur c : ℕ) (in_range : cur < length nodes) where
  abbrev pub n : ℕ
  n = length nodes

  -- The nodes after a child is added at `cur`.
  abbrev pub added : List AcNode
  added = set_child nodes cur c (some n) ++ fresh ∷ []

  abbrev changed : AcNode
  changed = record (node nodes cur) { children = update (node nodes cur).children c (some n) }

  pub length-added : length added ≡ suc n
  length-added = omega (
    arith,
    length-append (set_child nodes cur c (some n)) (fresh ∷ []),
    length-set nodes cur changed,
  )

  node_new : node added n ≡ fresh
  node_new =
      get_or-append_last (set nodes cur changed) fresh fresh n (sym (length-set nodes cur changed))

  node_cur : node added cur ≡ changed
  node_cur =
      get_or-append_front (set nodes cur changed) fresh fresh cur
        (λ e. omega (arith, length-set nodes cur changed))
      ∙ get_or-set_same nodes cur changed fresh in_range

  node_old : (u : ℕ) → u ≢ n → u ≢ cur → node added u ≡ node nodes u
  node_old u h k =
      get_or-append_front (set nodes cur changed) fresh fresh u
        (λ e. omega (arith, length-set nodes cur changed))
      ∙ get_or-set_other nodes cur u changed fresh in_range (λ e. k (sym e))

  -- The node added has no word, as if it were not there.
  pub output-added_all : (u : ℕ) → (node added u).output_word ≡ (node nodes u).output_word
  output-added_all u = elim (ℕ_discrete u n) [
    | yes new ↦
        subst (λ w. (node added w).output_word ≡ (node nodes w).output_word) (sym new)
          (ap (λ x. x.output_word) node_new
            ∙ ap (λ x. x.output_word) (sym (get_or-outside nodes n fresh (omega arith))))
    | no old ↦ elim (ℕ_discrete u cur) [
      | yes e ↦
          subst (λ w. (node added w).output_word ≡ (node nodes w).output_word) (sym e)
            (ap (λ x. x.output_word) node_cur)
      | no k ↦ ap (λ x. x.output_word) (node_old u old k)
    ]
  ]

  child-added :
      (u x v : ℕ)
      → u < suc n
      → child added u x ≡ some v
      → ((u < n) × (child nodes u x ≡ some v)) ⊎ ((u ≡ cur) × (x ≡ c) × (v ≡ n))
  child-added u x v h e = elim (ℕ_discrete u n) [
    | yes new ↦
        let none_some : none ≡ some v =
          sym (ap (λ w. w.children x) node_new) ∙ ap (λ w. child added w x) (sym new) ∙ e in
        absurd (cc none_some)
    | no old ↦ elim (ℕ_discrete u cur) [
      | yes here ↦
          let at_cur : update (node nodes cur).children c (some n) x ≡ some v =
            sym (ap (λ w. w.children x) node_cur) ∙ ap (λ w. child added w x) (sym here) ∙ e in
          elim (ℕ_discrete c x) [
            | yes hit ↦
                let f : some n ≡ some v =
                  sym (update_same (node nodes cur).children c x (some n) hit) ∙ at_cur in
                inr (here, sym hit, cc f)
            | no miss ↦ inl (
              omega arith,
              ap (λ w. child nodes w x) here
                  ∙ sym (update_other (node nodes cur).children c x (some n) miss)
                  ∙ at_cur,
            )
          ]
      | no there ↦ inl (omega arith, sym (ap (λ w. w.children x) (node_old u old there)) ∙ e)
    ]
  ]

  child-kept :
      (u x v : ℕ)
      → u < n
      → child nodes cur c ≡ none
      → child nodes u x ≡ some v
      → child added u x ≡ some v
  child-kept u x v h free e = elim (ℕ_discrete u cur) [
    | yes here ↦ elim (ℕ_discrete c x) [
      | yes hit ↦
          let f : none ≡ some v =
            sym free ∙ ap (child nodes cur) hit ∙ ap (λ w. child nodes w x) (sym here) ∙ e in
          absurd (cc f)
      | no miss ↦
          ap (λ w. child added w x) here
          ∙ ap (λ w. w.children x) node_cur
          ∙ update_other (node nodes cur).children c x (some n) miss
          ∙ ap (λ w. child nodes w x) (sym here)
          ∙ e
    ]
    | no there ↦ ap (λ w. w.children x) (node_old u (λ z. omega arith) there) ∙ e
  ]

  module _ (label : ℕ → Bytes) (t : Trie nodes label) (letter : c < 26)
      (free : child nodes cur c ≡ none) where
    -- The label of the added node.
    abbrev pub longer : Bytes
    longer = label cur ++ (c + b'a') ∷ []

    abbrev pub grown : ℕ → Bytes
    grown = update label n longer

    pub grown_old : (u : ℕ) → u < n → grown u ≡ label u
    grown_old u h = update_other label n u longer (λ e. omega arith)

    pub grown_new : (u : ℕ) → u ≡ n → grown u ≡ longer
    grown_new u e = update_same label n u longer (sym e)

    -- No node has the added label already.
    longer-fresh : (v : ℕ) → v < n → label v ≢ longer
    longer-fresh v h e =
        let v_pos : v ≢ 0 =
          λ z. snoc_nonempty (label cur) (c + b'a') (sym e ∙ ap label z ∙ t.root) in
        let (u, x, hu, step) = t.parent v h v_pos in
        let (_, _, named) = t.edge u x v hu step in
        let (same, last) =
          snoc_injective (label u) (label cur) (x + b'a') (c + b'a') (sym named ∙ e) in
        let at_cur : u ≡ cur = t.injective u cur hu in_range same in
        let by_c : x ≡ c = omega arith in
        let clash : none ≡ some v =
          sym free
          ∙ ap (child nodes cur) (sym by_c)
          ∙ ap (λ w. child nodes w x) (sym at_cur)
          ∙ step in
        cc clash

    grown_injective : (u v : ℕ) → u < suc n → v < suc n → grown u ≡ grown v → u ≡ v
    grown_injective u v hu hv e = elim (ℕ_discrete u n) [
      | yes un ↦ elim (ℕ_discrete v n) [
        | yes vn ↦ omega arith
        | no vo ↦ absurd (
            longer-fresh v (omega arith) (sym (grown_old v (omega arith)) ∙ sym e ∙ grown_new u un))
      ]
      | no uo ↦ elim (ℕ_discrete v n) [
        | yes vn ↦
            absurd
              (longer-fresh u (omega arith) (sym (grown_old u (omega arith)) ∙ e ∙ grown_new v vn))
        | no vo ↦
            t.injective u v (omega arith) (omega arith)
              (sym (grown_old u (omega arith)) ∙ e ∙ grown_old v (omega arith))
      ]
    ]

    grown_edge :
        (u x v : ℕ)
        → u < suc n
        → child added u x ≡ some v
        → (x < 26) × (v < suc n) × (grown v ≡ grown u ++ (x + b'a') ∷ [])
    grown_edge u x v h e = elim (child-added u x v h e) [
      | inl (hu, old) ↦
          let (small, hv, named) = t.edge u x v hu old in
          (small, omega arith, rw (grown_old v hv, grown_old u hu) named)
      | inr (at_cur, by_c, new) ↦ (
        omega arith,
        omega arith,
        rw (grown_new v new, grown_old u (omega arith), at_cur, by_c) refl,
      )
    ]

    grown_parent :
        (v : ℕ) → v < suc n → v ≢ 0 → (u : ℕ) × (x : ℕ) × (u < suc n) × (child added u x ≡ some v)
    grown_parent v h nz = elim (ℕ_discrete v n) [
      | yes new ↦ (
        cur,
        c,
        omega arith,
        ap (λ w. w.children c) node_cur
            ∙ update_same (node nodes cur).children c c (some n) refl
            ∙ ap some (sym new),
      )
      | no old ↦
          let (u, x, hu, step) = t.parent v (omega arith) nz in
          (u, x, omega arith, child-kept u x v hu free step)
    ]

    pub added-Trie : Trie added grown
    added-Trie = record {
      has_root = omega (arith, length-added);
      root = grown_old 0 t.has_root ∙ t.root;
      injective = λ u v hu hv.
          grown_injective u v (omega (arith, length-added)) (omega (arith, length-added));
      edge = λ u x v hu e.
          let (small, hv, named) = grown_edge u x v (omega (arith, length-added)) e in
          (small, omega (arith, length-added), named);
      parent = λ v hv nz.
          let (u, x, hu, step) = grown_parent v (omega (arith, length-added)) nz in
          (u, x, omega (arith, length-added), step);
    }

-- A word set at a node changes neither the edges nor the other words.
module _ (nodes : List AcNode) (cur : ℕ) (word : Bytes) (in_range : cur < length nodes) where
  abbrev named : AcNode
  named = record (node nodes cur) { output_word = word }

  pub length-set_word : length (set_word nodes cur word) ≡ length nodes
  length-set_word = length-set nodes cur named

  pub output-set_word_same : (node (set_word nodes cur word) cur).output_word ≡ word
  output-set_word_same = ap (λ x. x.output_word) (get_or-set_same nodes cur named fresh in_range)

  pub output-set_word_other :
      (u : ℕ)
      → u ≢ cur
      → (node (set_word nodes cur word) u).output_word ≡ (node nodes u).output_word
  output-set_word_other u h =
      ap (λ x. x.output_word) (get_or-set_other nodes cur u named fresh in_range (λ e. h (sym e)))

  child-set_word : (u x : ℕ) → child (set_word nodes cur word) u x ≡ child nodes u x
  child-set_word u x = elim (ℕ_discrete u cur) [
    | yes e ↦
        subst (λ w. child (set_word nodes cur word) w x ≡ child nodes w x) (sym e)
          (ap (λ w. w.children x) (get_or-set_same nodes cur named fresh in_range))
    | no h ↦
        ap (λ w. w.children x) (get_or-set_other nodes cur u named fresh in_range (λ e. h (sym e)))
  ]

  pub set_word-Trie : (label : ℕ → Bytes) → Trie nodes label → Trie (set_word nodes cur word) label
  set_word-Trie label t = record {
    has_root = omega (arith, length-set_word, t.has_root);
    root = t.root;
    injective = λ u v hu hv.
        t.injective u v (omega (arith, length-set_word)) (omega (arith, length-set_word));
    edge = λ u x v hu e.
        let (small, hv, named) =
          t.edge u x v (omega (arith, length-set_word)) (sym (child-set_word u x) ∙ e) in
        (small, omega (arith, length-set_word), named);
    parent = λ v hv nz.
        let (u, x, hu, step) = t.parent v (omega (arith, length-set_word)) nz in
        (u, x, omega (arith, length-set_word), child-set_word u x ∙ step);
  }
