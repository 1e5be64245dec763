-- ===== src/Finder/Etl/Tests.antt =====
-- The selection on a few raw matches.
use pi_poetry.Base.{◌≡◌, refl, true, false, none, List, [], ◌∷◌, arith}
use pi_poetry.Base.Map.{find, insert}
use pi_poetry.Finder.Word.{WordMatch}
use pi_poetry.Finder.Policy.{Raw, best_step, best_from, select, group_loop, apply_etl_cb}
use pi_poetry.Finder.Etl.{apply_etl_cb-Picks}
use pi_poetry.Finder.Etl.Select.{Picks}
use pi_poetry.Finder.Etl.Groups.{Cuts, long_enough}

-- "ab" and "abc" at 0, "cd" at 2, "de" at 3, "f" at 9.
abbrev found : Raw
found =
    (0, 97 ∷ 98 ∷ [])
    ∷ (0, 97 ∷ 98 ∷ 99 ∷ [])
    ∷ (2, 99 ∷ 100 ∷ [])
    ∷ (3, 100 ∷ 101 ∷ [])
    ∷ (9, 102 ∷ [])
    ∷ []

abbrev abc : WordMatch
abc = record { word = 97 ∷ 98 ∷ 99 ∷ []; start = 0; length = 3; consecutive = false }

abbrev de : WordMatch
de = record { word = 100 ∷ 101 ∷ []; start = 3; length = 2; consecutive = true }

apply_etl_cb_test : apply_etl_cb 2 found 0 ≡ (abc ∷ de ∷ []) ∷ []
unfolding apply_etl_cb best_from best_step select group_loop find insert
apply_etl_cb_test = refl

apply_etl_cb-Picks_example :
    (ws : List WordMatch) × (rs : List (List WordMatch)) × Picks found 0 none 0 ws
    × Cuts ws rs
    × (apply_etl_cb 2 found 0 ≡ long_enough 2 rs)
apply_etl_cb-Picks_example = apply_etl_cb-Picks 2 found 0 (omega arith)
