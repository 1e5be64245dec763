-- ===== src/Finder/Policy.antt =====
-- src/word_finder/AhoCorasickCPU.cpp: the overlap policies, from the raw matches of a scan to the
-- chains handed to `on_chain`. A raw match is the pair of its start and its word. The callback is
-- the list of the chains that it is called with, in order.
use pi_poetry.Base.{
  ℕ, zero, suc, ◌+◌, Bool, true, false, not, ◌&&◌, ◌||◌, Option, none, some, List, [], ◌∷◌, ◌++◌,
  ◌==◌, ltb, leb, if◌then◌else◌, length, add64,
}
use pi_poetry.Base.Map.{Map, find, insert}
use pi_poetry.Finder.Word.{WordMatch}
use pi_poetry.Base.Text.{Bytes}

abbrev pub Raw : Type 0
Raw = List (ℕ × Bytes)

-- `apply_etl_cb`, the loop that fills `best`: an entry is the longest word at a start, and its end.
abbrev pub longer : Bytes → Option (Bytes × ℕ) → Bool
longer word none = true
longer word (some (old, _)) = ltb (length old) (length word)

unfoldable pub best_step : Map (Bytes × ℕ) → ℕ × Bytes → Map (Bytes × ℕ)
best_step best (start, word) =
    if longer word (find start best)
    then insert start (word, add64 start (length word)) best
    else best

unfoldable pub best_from : Map (Bytes × ℕ) → Raw → Map (Bytes × ℕ)
best_from best [] = best
best_from best (p ∷ raw) = best_from (best_step best p) raw

-- The loop over `best`: `started` is `!result.empty()`.
unfoldable pub select : ℕ → ℕ → ℕ → Bool → Map (Bytes × ℕ) → List WordMatch
select global_offset scan_pos prev_end started [] = []
select global_offset scan_pos prev_end started ((start, (word, _)) ∷ best) =
    let skipped = select global_offset scan_pos prev_end started best in
    let global_start = add64 global_offset start in
    let taken =
      select global_offset (add64 start (length word)) (add64 global_start (length word)) true
        best in
    if ltb start scan_pos
    then skipped
    else record {
      word = word;
      start = global_start;
      length = length word;
      consecutive = started && global_start == prev_end;
    }
      ∷ taken

abbrev pub nonempty : List WordMatch → Bool
nonempty [] = false
nonempty (w ∷ ws) = true

-- The loop that cuts the words into groups, with the group in progress.
unfoldable pub group_loop : ℕ → List WordMatch → List WordMatch → List (List WordMatch)
group_loop min_length group [] =
    if nonempty group && leb min_length (length group) then group ∷ [] else []
group_loop min_length group (w ∷ ws) =
    let cut = not w.consecutive && nonempty group in
    (if cut && leb min_length (length group) then group ∷ [] else [])
    ++ group_loop min_length (if cut then w ∷ [] else group ++ w ∷ []) ws

-- `apply_etl_cb`.
unfoldable pub apply_etl_cb : ℕ → Raw → ℕ → List (List WordMatch)
apply_etl_cb min_phrase_length raw global_offset =
    group_loop min_phrase_length [] (select global_offset 0 0 false (best_from [] raw))

-- `chain_has_qualifying_run`: the loop, with the length of the run so far.
unfoldable pub run_loop : ℕ → ℕ → List WordMatch → Bool
run_loop min_length run [] = false
run_loop min_length run (m ∷ chain) =
    let run' = if m.consecutive then run + 1 else 1 in
    leb min_length run' || run_loop min_length run' chain

unfoldable pub chain_has_qualifying_run : ℕ → List WordMatch → Bool
unfolding run_loop
chain_has_qualifying_run min_length chain =
    if leb min_length 1 then nonempty chain else run_loop min_length 0 chain

-- `apply_all_combos_cb`: the words at each start, with their ends, in the order of `raw`.
abbrev pub words_at : ℕ → Map (List (Bytes × ℕ)) → List (Bytes × ℕ)
words_at start by_start = elim (find start by_start) [ none ↦ [] | some words ↦ words ]

unfoldable pub starts_from : Map (List (Bytes × ℕ)) → Raw → Map (List (Bytes × ℕ))
starts_from by_start [] = by_start
starts_from by_start ((start, word) ∷ raw) =
    starts_from
      (insert start (words_at start by_start ++ (word, add64 start (length word)) ∷ []) by_start)
      raw

-- The loop of `dfs` over the words at `pos`, where `deeper` is the recursive call.
unfoldable pub dfs_words :
    ℕ
    → ℕ
    → ℕ
    → List WordMatch
    → (ℕ → List WordMatch → List (List WordMatch))
    → List (Bytes × ℕ)
    → List (List WordMatch)
unfolding chain_has_qualifying_run
dfs_words min_length global_offset pos current deeper [] = []
dfs_words min_length global_offset pos current deeper ((word, end_pos) ∷ words) =
    let m : WordMatch = record {
      word = word;
      start = add64 global_offset pos;
      length = length word;
      consecutive = nonempty current;
    } in
    let chain = current ++ m ∷ [] in
    (if chain_has_qualifying_run min_length chain then chain ∷ [] else [])
    ++ deeper end_pos chain
    ++ dfs_words min_length global_offset pos current deeper words

-- The fuel bounds the length of a chain.
unfoldable pub dfs : ℕ → ℕ → Map (List (Bytes × ℕ)) → ℕ → ℕ → List WordMatch → List (List WordMatch)
unfolding dfs_words
dfs min_length global_offset by_start zero pos current = []
dfs min_length global_offset by_start (suc fuel) pos current =
    dfs_words min_length global_offset pos current (dfs min_length global_offset by_start fuel)
      (words_at pos by_start)

unfoldable pub dfs_starts :
    ℕ → ℕ → Map (List (Bytes × ℕ)) → Map (List (Bytes × ℕ)) → List (List WordMatch)
unfolding dfs
dfs_starts min_length global_offset by_start [] = []
dfs_starts min_length global_offset by_start ((start, _) ∷ rest) =
    dfs min_length global_offset by_start (suc (length by_start)) start []
    ++ dfs_starts min_length global_offset by_start rest

unfoldable pub apply_all_combos_cb : ℕ → Raw → ℕ → List (List WordMatch)
unfolding dfs_starts starts_from
apply_all_combos_cb min_phrase_length raw global_offset =
    let by_start = starts_from [] raw in
    dfs_starts min_phrase_length global_offset by_start by_start

-- `OverlapPolicy` and `apply_policy_cb`.
pub data OverlapPolicy : Type 0 where
  earliest_then_longest all_combos : OverlapPolicy

unfoldable pub apply_policy_cb : OverlapPolicy → ℕ → Raw → ℕ → List (List WordMatch)
unfolding apply_etl_cb apply_all_combos_cb
apply_policy_cb earliest_then_longest min_phrase_length raw global_offset =
    apply_etl_cb min_phrase_length raw global_offset
apply_policy_cb all_combos min_phrase_length raw global_offset =
    apply_all_combos_cb min_phrase_length raw global_offset
