-- ===== src/Benchmark/Pipeline.antt =====
-- `runPipeline`: the orders go through the ring to the engine's thread.
pub mod Defs
pub mod Inv
pub mod Finish
mod Tests
