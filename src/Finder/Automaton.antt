-- ===== src/Finder/Automaton.antt =====
-- `AhoCorasickCPU` of src/word_finder/AhoCorasickCPU.cpp and include/word_finder/AhoCorasickCPU.hpp:
-- the trie of the dictionary, the breadth-first build of the automaton, and the scan. An index -1 is
-- `none`; the array of the 26 children is a function of the letter's index. Reading a node that is
-- not there gives a fresh one.
pub mod Build
pub mod Scan
pub mod Trie
pub mod Tests
use pi_poetry.Base.{
  ℕ, zero, suc, ◌+◌, ◌-◌, Bool, true, false, ◌&&◌, Option, none, some, List, [], ◌∷◌, ◌++◌, Bytes,
  ltb, leb, ◌==◌, if◌then◌else◌, length, set, get_or,
}
use pi_poetry.Base.Update.{update}
use pi_poetry.Finder.Policy.{Raw, OverlapPolicy, earliest_then_longest}

-- `AcNode`.
pub record AcNode : Type 0 where
  pub children : ℕ → Option ℕ
  pub failure : ℕ
  pub output_link : Option ℕ
  pub output_word : Bytes

abbrev pub fresh : AcNode
fresh = record { children = λ c. none; failure = 0; output_link = none; output_word = [] }

-- The members of `AhoCorasickCPU`.
pub record AhoCorasick : Type 0 where
  pub nodes : List AcNode
  pub policy : OverlapPolicy
  pub min_word_length : ℕ
  pub min_phrase_length : ℕ
  pub max_word_len : ℕ
  pub built : Bool

-- The constructor.
abbrev pub constructed : AhoCorasick
constructed = record {
  nodes = fresh ∷ [];
  policy = earliest_then_longest;
  min_word_length = 1;
  min_phrase_length = 1;
  max_word_len = 0;
  built = false;
}

-- The setters.
abbrev pub set_overlap_policy : AhoCorasick → OverlapPolicy → AhoCorasick
set_overlap_policy a policy = record a { policy = policy }

abbrev pub set_min_word_length : AhoCorasick → ℕ → AhoCorasick
set_min_word_length a min_len = record a { min_word_length = min_len }

abbrev pub set_min_phrase_length : AhoCorasick → ℕ → AhoCorasick
set_min_phrase_length a min_len = record a { min_phrase_length = min_len }

abbrev pub node : List AcNode → ℕ → AcNode
node nodes u = get_or nodes u fresh

abbrev pub child : List AcNode → ℕ → ℕ → Option ℕ
child nodes u c = (node nodes u).children c

abbrev pub set_child : List AcNode → ℕ → ℕ → Option ℕ → List AcNode
set_child nodes u c v =
    set nodes u (record (node nodes u) { children = update (node nodes u).children c v })

abbrev pub is_lower : ℕ → Bool
is_lower c = leb b'a' c && leb c b'z'

-- One letter of the loop of `insert_word`: the child, which is added where it is missing.
unfoldable pub child_or_new : List AcNode → ℕ → ℕ → List AcNode × ℕ
child_or_new nodes cur idx = elim (child nodes cur idx) [
  | some v ↦ (nodes, v)
  | none ↦ (set_child nodes cur idx (some (length nodes)) ++ fresh ∷ [], length nodes)
]

-- The loop of `insert_word`: `none` is its early return, which keeps the nodes added so far.
unfoldable pub insert_loop : List AcNode → ℕ → Bytes → List AcNode × Option ℕ
unfolding child_or_new
insert_loop nodes cur [] = (nodes, some cur)
insert_loop nodes cur (c ∷ cs) =
    let next = child_or_new nodes cur (c - b'a') in
    let rest = insert_loop next.0 next.1 cs in if is_lower c then rest else (nodes, none)

abbrev pub set_word : List AcNode → ℕ → Bytes → List AcNode
set_word nodes u word = set nodes u (record (node nodes u) { output_word = word })

-- The end of `insert_word`.
abbrev pub finish_word : AhoCorasick → Bytes → List AcNode × Option ℕ → AhoCorasick
finish_word a word (nodes, none) = record a { nodes = nodes }
finish_word a word (nodes, some cur) = record a {
  nodes = set_word nodes cur word;
  max_word_len = if ltb a.max_word_len (length word) then length word else a.max_word_len;
}

-- `insert_word`.
unfoldable pub insert_word : AhoCorasick → Bytes → AhoCorasick
unfolding insert_loop
insert_word a word =
    if ltb (length word) a.min_word_length
    then a
    else finish_word a word (insert_loop a.nodes 0 word)

-- `load_dictionary`, for the lines that `std::getline` yields.
abbrev pub strip_cr : Bytes → Bytes
strip_cr [] = []
strip_cr (c ∷ []) = if c == 13 then [] else c ∷ []
strip_cr (c ∷ d ∷ cs) = c ∷ strip_cr (d ∷ cs)

unfoldable pub load_dictionary : AhoCorasick → List Bytes → AhoCorasick
load_dictionary a [] = a
load_dictionary a (line ∷ lines) = load_dictionary (insert_word a (strip_cr line)) lines
