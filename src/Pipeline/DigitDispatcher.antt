-- ===== src/Pipeline/DigitDispatcher.antt =====
-- include/pipeline/DigitDispatcher.hpp, and `DigitPackage` of include/pipeline/WorkPackage.hpp.
pub mod Coverage
mod Tests
use pi_poetry.Base.{
  ℕ, ◌-◌, min, Bool, Option, none, some, List, [], ◌∷◌, ltb, leb, ◌&&◌, ◌==◌, if◌then◌else◌, length,
  suc, ◌*◌, ◌%◌, ◌^◌, add64, sub64,
}

pub record DigitPackage : Type 0 where
  pub seq_id : ℕ
  pub global_digit_offset : ℕ
  pub num_real_digits : ℕ
  pub digits : List ℕ

pub record DigitDispatcher : Type 0 where
  pub chunk_size : ℕ
  pub lookahead_digits : ℕ
  pub max_digits : ℕ
  pub next_seq : ℕ

-- `DigitSource::read_at offset buffer n`, as the list of the digits written.
abbrev pub ReadAt : Type 0
ReadAt = ℕ → ℕ → List ℕ

abbrev pub chunk_offset : DigitDispatcher → ℕ → ℕ
chunk_offset d seq_id = (seq_id * d.chunk_size) % 2 ^ 64

-- `max_digits_ > 0 && offset >= max_digits_`.
unfoldable pub past_end : DigitDispatcher → ℕ → Bool
past_end d offset = ltb 0 d.max_digits && leb d.max_digits offset

unfoldable pub effective_chunk : DigitDispatcher → ℕ → ℕ
effective_chunk d offset =
    if ltb 0 d.max_digits && ltb d.max_digits (add64 offset d.chunk_size)
    then sub64 d.max_digits offset
    else d.chunk_size

-- The package for the digits that were read, if any were.
abbrev pub packed : ℕ → ℕ → ℕ → List ℕ → Option DigitPackage
packed seq_id offset effective buf =
    if length buf == 0
    then none
    else some (record {
      seq_id = seq_id;
      global_digit_offset = offset;
      num_real_digits = min effective (length buf);
      digits = buf;
    })

-- The package for the sequence number that a call of `next` has drawn.
unfoldable pub package_for : ReadAt → DigitDispatcher → ℕ → Option DigitPackage
package_for read_at d seq_id =
    let offset = chunk_offset d seq_id in
    let effective = effective_chunk d offset in
    if past_end d offset
    then none
    else packed seq_id offset effective (read_at offset (add64 effective d.lookahead_digits))

-- `next`: `fetch_add` hands each call, of whichever thread, the next sequence number.
unfoldable pub next : ReadAt → DigitDispatcher → DigitDispatcher × Option DigitPackage
unfolding package_for
next read_at d = (record d { next_seq = add64 d.next_seq 1 }, package_for read_at d d.next_seq)

-- The packages of `n` calls of `next`, in the order of their sequence numbers.
unfoldable pub packages : ReadAt → ℕ → DigitDispatcher → List (Option DigitPackage)
packages read_at ℕ.zero d = []
packages read_at (suc n) d = (next read_at d).1 ∷ packages read_at n (next read_at d).0
