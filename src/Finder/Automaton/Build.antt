-- ===== src/Finder/Automaton/Build.antt =====
-- `AhoCorasickCPU::build` of src/word_finder/AhoCorasickCPU.cpp: the failure links, the output links
-- and the missing children, breadth first.
use pi_poetry.Base.{ℕ, zero, suc, true, Option, none, some, List, [], ◌∷◌, ◌++◌, length, set}
use pi_poetry.Finder.Automaton.{AcNode, AhoCorasick, node, child, set_child}

-- A child once the missing ones are filled in: an array entry -1 would be read as 0.
abbrev pub goto : List AcNode → ℕ → ℕ → ℕ
goto nodes u c = elim (child nodes u c) [ none ↦ 0 | some v ↦ v ]

abbrev pub set_failure : List AcNode → ℕ → ℕ → List AcNode
set_failure nodes u f = set nodes u (record (node nodes u) { failure = f })

abbrev pub set_output_link : List AcNode → ℕ → Option ℕ → List AcNode
set_output_link nodes u link = set nodes u (record (node nodes u) { output_link = link })

-- The letters from `c` on, `n` of them.
abbrev pub letters : ℕ → ℕ → List ℕ
letters c zero = []
letters c (suc n) = c ∷ letters (suc c) n

-- The loop over the children of the root, with the queue.
unfoldable pub root_loop : List AcNode → List ℕ → List ℕ → List AcNode × List ℕ
root_loop nodes queue [] = (nodes, queue)
root_loop nodes queue (c ∷ cs) = elim (child nodes 0 c) [
  | none ↦ root_loop (set_child nodes 0 c (some 0)) queue cs
  | some v ↦ root_loop (set_failure nodes v 0) (queue ++ v ∷ []) cs
]

-- The loop over the children of `u`.
unfoldable pub children_loop : List AcNode → ℕ → List ℕ → List ℕ → List AcNode × List ℕ
children_loop nodes u queue [] = (nodes, queue)
children_loop nodes u queue (c ∷ cs) =
    let f = goto nodes (node nodes u).failure c in
    elim (child nodes u c) [
      | none ↦ children_loop (set_child nodes u c (some f)) u queue cs
      | some v ↦ children_loop (set_failure nodes v f) u (queue ++ v ∷ []) cs
    ]

-- The nearest node on the chain of failures with a word.
abbrev pub link_of : List AcNode → ℕ → Option ℕ
link_of nodes f = elim (node nodes f).output_word [
  | [] ↦ (node nodes f).output_link
  | (c ∷ cs) ↦ some f
]

-- A round of the `while` loop, for the node `u` at the front of the queue.
unfoldable pub visit : List AcNode → ℕ → List ℕ → List AcNode × List ℕ
unfolding children_loop
visit nodes u queue =
    children_loop (set_output_link nodes u (link_of nodes (node nodes u).failure)) u queue
      (letters 0 26)

-- The `while` loop: the fuel bounds its rounds, and what is left of the queue is kept.
unfoldable pub visit_loop : ℕ → List AcNode → List ℕ → List AcNode × List ℕ
visit_loop zero nodes queue = (nodes, queue)
visit_loop (suc fuel) nodes [] = (nodes, [])
visit_loop (suc fuel) nodes (u ∷ queue) =
    let next = visit nodes u queue in visit_loop fuel next.0 next.1

-- `build`: a node enters the queue at most once.
unfoldable pub build : AhoCorasick → AhoCorasick
unfolding root_loop visit_loop
build a =
    let start = root_loop a.nodes [] (letters 0 26) in
    record a { nodes = (visit_loop (length a.nodes) start.0 start.1).0; built = true }
