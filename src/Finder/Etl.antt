-- ===== src/Finder/Etl.antt =====
-- The policy EarliestThenLongest: what `apply_etl_cb` of src/word_finder/AhoCorasickCPU.cpp hands to
-- `on_chain`.
mod Best
pub mod Select
pub mod Groups
mod Tests
use pi_poetry.Base.{ℕ, ◌≡◌, none, false, List, [], All}
use pi_poetry.Finder.Word.{WordMatch}
use pi_poetry.Finder.Policy.{Raw, best_from, select, apply_etl_cb}
use Select.{Fits, Picks, select-best_from-Picks}
use Groups.{Cuts, long_enough, group_loop-Cuts}

-- For raw matches of nonempty words that end below 2^64, the chains are made as the policy says: words
-- are picked, each the earliest that starts at or after the end of the one before and the longest at
-- its start, until none is left; they are marked consecutive exactly when they start where the one
-- before ended; and the chains are the maximal runs of consecutive words that have at least
-- `min_phrase_length` words, in order.
pub apply_etl_cb-Picks :
    (min_phrase_length : ℕ) (raw : Raw) (global_offset : ℕ)
    → All (Fits global_offset) raw
    → (ws : List WordMatch) × (rs : List (List WordMatch)) × Picks raw global_offset none 0 ws
      × Cuts ws rs
      × (apply_etl_cb min_phrase_length raw global_offset ≡ long_enough min_phrase_length rs)
unfolding apply_etl_cb
apply_etl_cb-Picks n raw off fits =
    let (rs, cuts, e) = group_loop-Cuts n (select off 0 0 false (best_from [] raw)) in
    (select off 0 0 false (best_from [] raw), rs, select-best_from-Picks raw off fits, cuts, e)
