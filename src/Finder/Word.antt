-- ===== src/Finder/Word.antt =====
-- include/word_finder/WordFinder.hpp: the data that the word finder hands on.
use pi_poetry.Base.{ℕ, Bool, Bytes}

-- `WordMatch`.
pub record WordMatch : Type 0 where
  pub word : Bytes
  pub start : ℕ
  pub length : ℕ
  pub consecutive : Bool
