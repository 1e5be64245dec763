-- ===== src/Finder/Automaton/Trie/Walk.antt =====
-- Walks of `insert_word`'s trie from the root, along the children that `scan_chunk` later follows, and
-- the words at their ends.
use native.Mathlib.Decide.{ℕ_discrete, dec_lt}
use pi_poetry.Base.{
  ℕ, zero, suc, ◌+◌, ◌-◌, ◌<◌, ◌≡◌, ◌≢◌, ◌↔◌, refl, sym, ap, ◌∙◌, subst, Option, none, some,
  Option-cases, inl, inr, List, [], ◌∷◌, ◌++◌, arith, length, length-append, Bytes, Has, map,
}
use pi_poetry.Base.Update.{get_or-outside}
use pi_poetry.Finder.Automaton.{
  AcNode, AhoCorasick, fresh, node, child, constructed, set_min_word_length, insert_word, strip_cr,
  load_dictionary,
}
use pi_poetry.Finder.Automaton.Trie.{Trie}
use pi_poetry.Finder.Automaton.Trie.Words.{Represents, Contains, Accepted}
use pi_poetry.Finder.Automaton.Trie.Dictionary.{
  load_dictionary-Contains, insert_word-Inserted, constructed-Represents,
}

-- The node that the letters lead to, if every one of them has a child.
abbrev pub walk : List AcNode → ℕ → Bytes → Option ℕ
walk nodes cur [] = some cur
walk nodes cur (c ∷ cs) = elim (child nodes cur (c - b'a')) [
  | none ↦ none
  | some next ↦ walk nodes next cs
]

-- The letters of `v` lead from the root to a node that has the word `v`.
abbrev pub Found : List AcNode → Bytes → Type 0
Found nodes v = (v ≢ []) × ((u : ℕ) × (walk nodes 0 v ≡ some u) × ((node nodes u).output_word ≡ v))

-- One letter of a walk.
abbrev walk_on : List AcNode → Bytes → Option ℕ → Option ℕ
walk_on nodes cs none = none
walk_on nodes cs (some next) = walk nodes next cs

walk-step :
    (nodes : List AcNode) (cur c : ℕ) (cs : Bytes) (o : Option ℕ)
    → child nodes cur (c - b'a') ≡ o
    → walk nodes cur (c ∷ cs) ≡ walk_on nodes cs o
walk-step nodes cur c cs o e = ground (arith, e)

walk-snoc :
    (nodes : List AcNode) (cur u c v : ℕ) (cs : Bytes)
    → walk nodes cur cs ≡ some u
    → child nodes u (c - b'a') ≡ some v
    → walk nodes cur (cs ++ c ∷ []) ≡ some v
walk-snoc nodes cur u c v [] at step =
    let e : cur ≡ u = cc at in rw e (walk-step nodes u c [] (some v) step)
walk-snoc nodes cur u c v (d ∷ cs) at step = elim (Option-cases (child nodes cur (d - b'a'))) [
  | inl missing ↦
      let f : none ≡ some u = sym (walk-step nodes cur d cs none missing) ∙ at in absurd (cc f)
  | inr (next, there) ↦
      walk-step nodes cur d (cs ++ c ∷ []) (some next) there
      ∙ walk-snoc nodes next u c v cs (sym (walk-step nodes cur d cs (some next) there) ∙ at) step
]

-- In a trie the string of a node leads to it.
module _ (nodes : List AcNode) (label : ℕ → Bytes) (t : Trie nodes label) where
  walk-label_below :
      (k u : ℕ) → u < length nodes → length (label u) < k → walk nodes 0 (label u) ≡ some u
  walk-label_below zero u hu h = absurd (omega arith)
  walk-label_below (suc k) u hu h = elim (ℕ_discrete u 0) [
    | yes e ↦ subst (λ x. walk nodes 0 (label x) ≡ some x) (sym e) (rw (t.root) refl)
    | no nz ↦
        let (p, c, hp, step) = t.parent u hu nz in
        let (_, _, named) = t.edge p c u hp step in
        let longer : length (label u) ≡ length (label p) + 1 =
          ap length named ∙ length-append (label p) ((c + b'a') ∷ []) in
        let same : c + b'a' - b'a' ≡ c = omega arith in
        ap (walk nodes 0) named
        ∙ walk-snoc nodes 0 p (c + b'a') u (label p) (walk-label_below k p hp (omega arith))
            (ap (child nodes p) same ∙ step)
  ]

  walk-label : (u : ℕ) → u < length nodes → walk nodes 0 (label u) ≡ some u
  walk-label u hu = walk-label_below (suc (length (label u))) u hu (omega arith)

Found-iff-Contains :
    (nodes : List AcNode) (label : ℕ → Bytes)
    → Represents nodes label
    → (v : Bytes) → Found nodes v ↔ Contains nodes v
Found-iff-Contains nodes label r v = (
  λ (nonempty, (u, at, e)). (
    nonempty,
    (
      u,
      elim (dec_lt u (length nodes)) [
        | yes h ↦ h
        | no h ↦ absurd (
            nonempty (sym e ∙ ap (λ x. x.output_word) (get_or-outside nodes u fresh (omega arith))))
      ],
      e,
    ),
  ),
  λ (nonempty, (u, hu, e)).
      let spelled = r.spelled u hu (subst (λ w. w ≢ []) (sym e) nonempty) in
      (nonempty, (u, ap (walk nodes 0) (sym e ∙ spelled) ∙ walk-label nodes label r.trie u hu, e)),
)

load_dictionary-Represents :
    (a : AhoCorasick) (lines : List Bytes) (label : ℕ → Bytes)
    → Represents a.nodes label
    → (label' : ℕ → Bytes) × Represents (load_dictionary a lines).nodes label'
unfolding load_dictionary
load_dictionary-Represents a [] label r = (label, r)
load_dictionary-Represents a (line ∷ lines) label r =
    let ((label1, r1), _, _) = insert_word-Inserted a (strip_cr line) label r in
    load_dictionary-Represents (insert_word a (strip_cr line)) lines label1 r1

-- A dictionary is loaded into a new automaton. The letters of a word then lead from the root to a
-- node that has this word exactly when the word is nonempty, lowercase and of the minimal length at
-- least, and is one of the lines, each taken without a carriage return at its end.
pub load_dictionary-Found :
    (min_length : ℕ) (lines : List Bytes) (v : Bytes)
    → Found (load_dictionary (set_min_word_length constructed min_length) lines).nodes v
      ↔ (Accepted min_length v × Has v (map strip_cr lines))
load_dictionary-Found min_length lines v =
    let a = set_min_word_length constructed min_length in
    let (label, r) = load_dictionary-Represents a lines (λ u. []) constructed-Represents in
    let stored = Found-iff-Contains (load_dictionary a lines).nodes label r v in
    let words = load_dictionary-Contains min_length lines v in
    (λ found. words.0 (stored.0 found), λ word. stored.1 (words.1 word))
