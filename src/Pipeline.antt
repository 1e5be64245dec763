-- ===== src/Pipeline.antt =====
-- The parallel pipeline: src/pipeline/Pipeline.cpp and the headers of include/pipeline.
pub mod ReorderBuffer
pub mod DigitDispatcher
pub mod Serial
pub mod Stage
pub mod Workers
