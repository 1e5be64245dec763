-- ===== src/Pipeline/ReorderBuffer/Tests.antt =====
-- Two chunks, whose packages arrive out of order.
use pi_poetry.Base.{
  ℕ, zero, suc, ◌≤◌, ◌<◌, ◌≡◌, refl, true, false, some, List, [], ◌∷◌, arith, length, All,
}
use pi_poetry.Base.Map.{find, insert, erase}
use pi_poetry.Pipeline.ReorderBuffer.{
  ReorderBuffer, Package, empty, submit, collect, drain_loop, writer_loop,
}
use pi_poetry.Pipeline.ReorderBuffer.Invariant.{Genuine}
use pi_poetry.Pipeline.ReorderBuffer.Order.{released, Complete}
use pi_poetry.Pipeline.ReorderBuffer.Writer.{
  Submitted, writer_loop-released, writer_loop-eq-released,
}

abbrev items : ℕ → List ℕ
items zero = 10 ∷ 11 ∷ []
items (suc c) = 20 ∷ []

abbrev arrival : ℕ → ℕ → ℕ → Package ℕ
arrival zero i x = record {
  chunk_id = 0;
  intra_id = i;
  is_final = elim i [ zero ↦ false | suc j ↦ true ];
  item = x;
}
arrival (suc c) i x = record { chunk_id = suc c; intra_id = i; is_final = true; item = x }

abbrev late_start : List (Package ℕ)
late_start = arrival 1 0 20 ∷ arrival 0 1 11 ∷ arrival 0 0 10 ∷ []

items_nonempty : (c : ℕ) → 0 < length (items c)
items_nonempty zero = omega arith
items_nonempty (suc c) = omega arith

late_start-Genuine : All (Genuine items 2) late_start
late_start-Genuine = (
  record { in_chunk = refl; final_exact = refl; in_bound = omega arith },
  (
    record { in_chunk = refl; final_exact = refl; in_bound = omega arith },
    (record { in_chunk = refl; final_exact = refl; in_bound = omega arith }, tt),
  ),
)

late_start-Complete : (c : ℕ) → c < 2 → Complete items 2 (Submitted late_start) c
late_start-Complete zero h i k = ground arith
late_start-Complete (suc c) h i k = ground arith

writer_loop-released_example :
    (n : ℕ) × (after : ReorderBuffer ℕ) × (writer_loop empty late_start
      ≡ some (after, released items 2 n))
    × (n ≤ 2)
    × (n < 2 → ¬ Complete items 2 (Submitted late_start) n)
writer_loop-released_example =
    writer_loop-released items 2 late_start items_nonempty late_start-Genuine

writer_loop-eq-released_example :
    (after : ReorderBuffer ℕ) × (writer_loop empty late_start ≡ some (after, released items 2 2))
writer_loop-eq-released_example =
    writer_loop-eq-released items 2 late_start items_nonempty late_start-Genuine late_start-Complete

writer_loop_test :
    writer_loop empty late_start
    ≡ some (record { pending = []; final_idx = []; next_chunk = 2 }, 10 ∷ 11 ∷ 20 ∷ [])
unfolding writer_loop submit drain_loop collect find insert erase
writer_loop_test = refl
