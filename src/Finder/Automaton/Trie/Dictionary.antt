-- ===== src/Finder/Automaton/Trie/Dictionary.antt =====
-- The words of the automaton after `insert_word` and `load_dictionary`.
use pi_poetry.Base.{
  ℕ, ◌≤◌, ◌<◌, ◌≡◌, ◌≢◌, ◌⊎◌, ◌↔◌, inl, inr, refl, sym, ap, ◌∙◌, subst, Option, none, some,
  Bool-cases, List, [], ◌∷◌, ◌++◌, arith, length, ltb, ltb→ge, ltb→lt, Bytes, Has, map,
}
use pi_poetry.Finder.Automaton.{
  AcNode, AhoCorasick, constructed, child, node, set_min_word_length, insert_loop, finish_word,
  insert_word, strip_cr, load_dictionary,
}
use pi_poetry.Finder.Automaton.Trie.Insert.{Grew, Ends, insert_loop-Grew}
use pi_poetry.Finder.Automaton.Trie.Words.{
  Represents, Contains, Accepted, grown-Represents, grown-Contains, set_word-Represents,
  set_word-Contains,
}

-- What `insert_word` makes of the nodes.
abbrev pub Inserted : AhoCorasick → Bytes → AhoCorasick → Type 0
Inserted a w b =
    ((label' : ℕ → Bytes) × Represents b.nodes label')
    × ((v : Bytes)
        → Contains b.nodes v ↔ (Contains a.nodes v ⊎ (Accepted a.min_word_length w × (v ≡ w))))
    × (b.min_word_length ≡ a.min_word_length)

insert_word-rejected :
    (a b : AhoCorasick) (w : Bytes)
    → ((label' : ℕ → Bytes) × Represents b.nodes label')
    → ((v : Bytes) → Contains b.nodes v ↔ Contains a.nodes v)
    → b.min_word_length ≡ a.min_word_length
    → ¬ Accepted a.min_word_length w
    → Inserted a w b
insert_word-rejected a b w r same keeps rejected = (
  r,
  λ v. (
    λ h. inl ((same v).0 h),
    λ s. elim s [ inl h ↦ (same v).1 h | inr (accepted, e) ↦ absurd (rejected accepted) ],
  ),
  keeps,
)

insert_word-finished :
    (a : AhoCorasick) (w : Bytes) (label label' : ℕ → Bytes) (nodes : List AcNode) (o : Option ℕ)
    → Represents a.nodes label
    → Grew a.nodes label nodes label'
    → Ends label 0 w (nodes, o) label'
    → a.min_word_length ≤ length w
    → Inserted a w (finish_word a w (nodes, o))
insert_word-finished a w label label' nodes none r g ends long =
    insert_word-rejected a (finish_word a w (nodes, none)) w
      (label', grown-Represents a.nodes label nodes label' r g)
      (grown-Contains a.nodes label nodes label' r g) refl
      (λ (nonempty, enough, low). elim ends [
        | inl (_, (u, found, _, _)) ↦ cc found
        | inr (bad, _) ↦ cc (low, bad)
      ])
insert_word-finished a w label label' nodes (some u) r g (inr (bad, found)) long = absurd (cc found)
insert_word-finished a w label label' nodes (some u) r g (inl (low, (u', found, hu', named))) long =
    let same : u' ≡ u = cc found in
    let hu : u < length nodes = omega arith in
    let at : label' u ≡ w = ap label' (sym same) ∙ named ∙ ap (λ x. x ++ w) r.trie.root in
    let r' = grown-Represents a.nodes label nodes label' r g in
    let grown = grown-Contains a.nodes label nodes label' r g in
    let set = set_word-Contains nodes label' u w r' hu at in
    (
      (label', set_word-Represents nodes label' u w r' hu at),
      λ v. (
        λ h. elim ((set v).0 h) [
          | inl old ↦ inl ((grown v).0 old)
          | inr (nonempty, e) ↦ inr ((nonempty, long, low), e)
        ],
        λ s. elim s [
          | inl old ↦ (set v).1 (inl ((grown v).1 old))
          | inr ((nonempty, _, _), e) ↦ (set v).1 (inr (nonempty, e))
        ],
      ),
      refl,
    )

pub insert_word-Inserted :
    (a : AhoCorasick) (w : Bytes) (label : ℕ → Bytes)
    → Represents a.nodes label
    → Inserted a w (insert_word a w)
unfolding insert_word
insert_word-Inserted a w label r = elim (Bool-cases (ltb (length w) a.min_word_length)) [
  | inl short ↦ rw short (
      insert_word-rejected a a w (label, r) (λ v. (λ h. h, λ h. h)) refl
        (λ (nonempty, enough, low). let h = ltb→lt _ _ short in omega (arith, h)))
  | inr long ↦
      let (label', g, ends) = insert_loop-Grew a.nodes label 0 w r.trie r.trie.has_root in
      let loop = insert_loop a.nodes 0 w in
      rw long (insert_word-finished a w label label' loop.0 loop.1 r g ends (ltb→ge _ _ long))
]

load_dictionary-Contains_from :
    (a : AhoCorasick) (lines : List Bytes) (label : ℕ → Bytes)
    → Represents a.nodes label
    → (v : Bytes)
    → Contains (load_dictionary a lines).nodes v
      ↔ (Contains a.nodes v ⊎ (Accepted a.min_word_length v × Has v (map strip_cr lines)))
unfolding load_dictionary
load_dictionary-Contains_from a [] label r v =
    (λ h. inl h, λ s. elim s [ inl h ↦ h | inr (x, h) ↦ absurd h ])
load_dictionary-Contains_from a (line ∷ lines) label r v =
    let word = strip_cr line in
    let b = insert_word a word in
    let ((label1, r1), inserted, keeps) = insert_word-Inserted a word label r in
    let rest =
      subst
        (λ m.
          Contains (load_dictionary b lines).nodes v
          ↔ (Contains b.nodes v ⊎ (Accepted m v × Has v (map strip_cr lines))))
        keeps (load_dictionary-Contains_from b lines label1 r1 v) in
    (
      λ h. elim (rest.0 h) [
        | inl got ↦ elim ((inserted v).0 got) [
          | inl old ↦ inl old
          | inr (accepted, e) ↦ inr (subst (Accepted a.min_word_length) (sym e) accepted, inl e)
        ]
        | inr (accepted, later) ↦ inr (accepted, inr later)
      ],
      λ s. elim s [
        | inl old ↦ rest.1 (inl ((inserted v).1 (inl old)))
        | inr (accepted, inl e) ↦
            rest.1 (inl ((inserted v).1 (inr (subst (Accepted a.min_word_length) e accepted, e))))
        | inr (accepted, inr later) ↦ rest.1 (inr (accepted, later))
      ],
    )

-- An automaton with only the root has no word.
pub constructed-Represents : Represents constructed.nodes (λ u. [])
constructed-Represents = record {
  trie = record {
    has_root = omega arith;
    root = refl;
    injective = λ u v hu hv e. omega arith;
    edge = λ u c v hu e.
        let z : u ≡ 0 = omega arith in
        let f : none ≡ some v = subst (λ x. child constructed.nodes x c ≡ some v) z e in
        absurd (cc f);
    parent = λ v hv nz. absurd (omega arith);
  };
  spelled = λ u hu nonempty.
      let z : u ≡ 0 = omega arith in
      absurd (subst (λ x. (node constructed.nodes x).output_word ≢ []) z nonempty refl);
}

-- After loading, some node has the word `v` exactly when `v` is accepted and among the lines.
pub load_dictionary-Contains :
    (min_length : ℕ) (lines : List Bytes) (v : Bytes)
    → Contains (load_dictionary (set_min_word_length constructed min_length) lines).nodes v
      ↔ (Accepted min_length v × Has v (map strip_cr lines))
load_dictionary-Contains min_length lines v =
    let all =
      load_dictionary-Contains_from (set_min_word_length constructed min_length) lines (λ u. [])
        constructed-Represents v in
    (
      λ h. elim (all.0 h) [
        | inl (nonempty, (u, hu, e)) ↦
            let z : u ≡ 0 = omega arith in
            let f : [] ≡ v = subst (λ x. (node constructed.nodes x).output_word ≡ v) z e in
            absurd (nonempty (sym f))
        | inr found ↦ found
      ],
      λ h. all.1 (inr h),
    )
