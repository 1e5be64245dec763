-- ===== src/Finder.antt =====
-- The word finder: include/word_finder and src/word_finder.
pub mod Word
pub mod Policy
pub mod Etl
pub mod Automaton
