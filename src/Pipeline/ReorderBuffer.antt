-- ===== src/Pipeline/ReorderBuffer.antt =====
-- include/pipeline/ReorderBuffer.hpp, and the writer thread of `run_parallel` in
-- src/pipeline/Pipeline.cpp that submits and drains. The callback `cb` is the list of the items
-- that it is called with, in order; `none` stands for the exception of `at`, and for fuel that runs
-- out.
pub mod Window
pub mod Invariant
pub mod Order
pub mod Writer
mod Tests
use mathlib.Core.Option
use pi_poetry.Base.{
  ℕ, zero, suc, ◌+◌, Bool, true, false, Option, none, some, List, [], ◌∷◌, ◌++◌, ◌==◌,
  if◌then◌else◌, length,
}
use pi_poetry.Base.Map.{Map, find, insert, erase}

pub record ReorderBuffer {ℓ} (T : Type ℓ) : Type ℓ where
  pub pending : Map (Map T)
  pub final_idx : Map ℕ
  pub next_chunk : ℕ

-- A package of the writer's queue.
pub record Package {ℓ} (T : Type ℓ) : Type ℓ where
  pub chunk_id : ℕ
  pub intra_id : ℕ
  pub is_final : Bool
  pub item : T

module _ {ℓ} {T : Type ℓ} where
  abbrev pub empty : ReorderBuffer T
  empty = record { pending = []; final_idx = []; next_chunk = 0 }

  -- `pending_[c]`, which is an empty map for a new key.
  abbrev pub entry : ℕ → Map (Map T) → Map T
  entry c m = Option.get_or (find c m) []

  -- `submit`.
  unfoldable pub submit : ReorderBuffer T → Package T → ReorderBuffer T
  submit b p = record b {
    pending = insert p.chunk_id (insert p.intra_id p.item (entry p.chunk_id b.pending)) b.pending;
    final_idx = if p.is_final then insert p.chunk_id p.intra_id b.final_idx else b.final_idx;
  }

  -- `for (i = i0; n more rounds; ++i) cb(inner.at(i))`.
  unfoldable pub collect : ℕ → ℕ → Map T → Option (List T)
  collect zero i inner = some []
  collect (suc n) i inner = elim (find i inner) [
    | none ↦ none
    | some x ↦ Option.map (◌∷◌ x) (collect n (suc i) inner)
  ]

  -- `pending_[next_chunk_]` adds the key where it is absent.
  abbrev pub with_entry : ReorderBuffer T → ReorderBuffer T
  with_entry b = record b { pending = insert b.next_chunk (entry b.next_chunk b.pending) b.pending }

  -- The two `erase` calls and `++next_chunk_`.
  abbrev pub advance : ReorderBuffer T → ReorderBuffer T
  advance b = record {
    pending = erase b.next_chunk b.pending;
    final_idx = erase b.next_chunk b.final_idx;
    next_chunk = suc b.next_chunk;
  }

  abbrev pub then_emit :
      Option (List T) → Option (ReorderBuffer T × List T) → Option (ReorderBuffer T × List T)
  then_emit none rest = none
  then_emit (some xs) none = none
  then_emit (some xs) (some (b, ys)) = some (b, xs ++ ys)

  -- The loop of `drain`.
  unfoldable pub drain_loop : ℕ → ReorderBuffer T → Option (ReorderBuffer T × List T)
  drain_loop zero b = none
  drain_loop (suc fuel) b =
      let rest = drain_loop fuel (advance (with_entry b)) in
      elim (find b.next_chunk b.final_idx) [
        | none ↦ some (b, [])
        | some k ↦
            let inner = entry b.next_chunk b.pending in
            if length inner == k + 1
            then then_emit (collect (k + 1) 0 inner) rest
            else some (with_entry b, [])
      ]

  -- A round removes an entry of `final_idx_`.
  abbrev pub drain : ReorderBuffer T → Option (ReorderBuffer T × List T)
  drain b = drain_loop (suc (length b.final_idx)) b

  -- The writer thread: what it writes for the packages in the order in which it pops them.
  unfoldable pub writer_loop :
      ReorderBuffer T → List (Package T) → Option (ReorderBuffer T × List T)
  writer_loop b [] = drain b
  writer_loop b (p ∷ ps) = elim (drain (submit b p)) [
    | none ↦ none
    | some (b', out) ↦ then_emit (some out) (writer_loop b' ps)
  ]
