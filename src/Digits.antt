-- ===== src/Digits.antt =====
-- Where the digits come from and how they become letters: the classes `DigitSource` and `DigitMapper`
-- with the laws that the pipeline relies on, and the implementations that fill them.
pub mod ApiSource
pub mod FileSource
pub mod TwoDigitBlock
pub mod MappingFile
mod Tests
use pi_poetry.Base.{ℕ, ◌%◌, ◌≡◌, List, [], ◌++◌, Bytes, length, take, drop}

-- The members of `DigitSource` that the serial run calls, on a state `S`; `next_chunk` gives the digits
-- that it writes into the buffer.
pub record DigitSource (S : Type 0) : Type 0 where
  pub base : ℕ
  pub reset : S → S
  pub next_chunk : S → ℕ → List ℕ × S

-- `rest` is what is still to come: a chunk is cut from its front, and is short only at the end.
pub record SourceLaws (S : Type 0) (source : DigitSource S) (rest : S → List ℕ) : Type 0 where
  pub reads : (s : S) (n : ℕ) → (source.next_chunk s n).0 ≡ take n (rest s)
  pub moves : (s : S) (n : ℕ) → rest (source.next_chunk s n).1 ≡ drop n (rest s)

-- The members of `DigitMapper` that the pipeline calls.
pub record DigitMapper : Type 0 where
  pub map : List ℕ → Bytes
  pub digits_per_char : ℕ
  pub required_base : ℕ

-- Whole groups of digits are mapped one by one.
pub record MapperLaws (mapper : DigitMapper) : Type 0 where
  pub maps_nil : mapper.map [] ≡ []
  pub maps_append :
      (xs ys : List ℕ)
      → length xs % mapper.digits_per_char ≡ 0
      → mapper.map (xs ++ ys) ≡ mapper.map xs ++ mapper.map ys
