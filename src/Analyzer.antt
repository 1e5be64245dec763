-- ===== src/Analyzer.antt =====
-- The result analyzer: src/result_analyzer and include/result_analyzer.
pub mod Stats
pub mod Chunks
pub mod Stream
pub mod Files
pub mod Report
pub mod Analysis
pub mod Sax
