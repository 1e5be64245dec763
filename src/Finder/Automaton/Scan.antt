-- ===== src/Finder/Automaton/Scan.antt =====
-- `AhoCorasickCPU::scan_chunk` and `scan` of src/word_finder/AhoCorasickCPU.cpp.
pub mod Chunks
use pi_poetry.Base.{
  ℕ, zero, suc, ◌+◌, ◌-◌, Option, none, some, List, [], ◌∷◌, ◌++◌, Bytes, length, if◌then◌else◌,
  add64, sub64,
}
use pi_poetry.Finder.Word.{WordMatch}
use pi_poetry.Finder.Policy.{Raw, apply_policy_cb}
use pi_poetry.Finder.Automaton.{AcNode, AhoCorasick, node, is_lower}
use pi_poetry.Finder.Automaton.Build.{goto}

-- The match of a node's word that ends before `end`: a size is subtracted modulo 2^64.
abbrev pub match_at : Bytes → ℕ → Raw
match_at [] end = []
match_at (c ∷ cs) end = (sub64 end (length (c ∷ cs)), c ∷ cs) ∷ []

-- The `while` loop along the output links. The fuel is the number of nodes.
unfoldable pub chain_matches : ℕ → List AcNode → ℕ → ℕ → Raw
chain_matches fuel nodes zero end = []
chain_matches zero nodes (suc s) end = []
chain_matches (suc fuel) nodes (suc s) end =
    match_at (node nodes (suc s)).output_word end ++ elim (node nodes (suc s)).output_link [
      | none ↦ []
      | some link ↦ chain_matches fuel nodes link end
    ]

abbrev pub transition : List AcNode → ℕ → ℕ → ℕ
transition nodes state c = if is_lower c then goto nodes state (c - b'a') else 0

abbrev pub matches_at : List AcNode → ℕ → ℕ → ℕ → Raw
matches_at nodes c state end =
    if is_lower c then chain_matches (length nodes) nodes state end else []

-- `scan_chunk`, from the position `i` of the chunk on: `raw_out` is what is appended, and the new
-- `ac_state` comes second.
unfoldable pub scan_from : List AcNode → ℕ → ℕ → ℕ → Bytes → Raw × ℕ
unfolding chain_matches
scan_from nodes global_offset i state [] = ([], state)
scan_from nodes global_offset i state (c ∷ cs) =
    let next = transition nodes state c in
    let rest = scan_from nodes global_offset (suc i) next cs in
    (matches_at nodes c next (add64 global_offset (i + 1)) ++ rest.0, rest.1)

unfoldable pub scan_chunk : AhoCorasick → Bytes → ℕ → ℕ → Raw × ℕ
unfolding scan_from
scan_chunk a chunk global_offset ac_state = scan_from a.nodes global_offset 0 ac_state chunk

-- `scan`: the starts are local, and the offset goes to the policy.
unfoldable pub scan : AhoCorasick → Bytes → ℕ → List (List WordMatch)
unfolding scan_chunk apply_policy_cb
scan a char_buffer offset =
    apply_policy_cb a.policy a.min_phrase_length (scan_chunk a char_buffer 0 0).0 offset
