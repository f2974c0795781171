-- ===== src/Benchmark/PoolRun.antt =====
-- `runPool`: the orders are copied into a memory pool and submitted from there.
pub mod Defs
pub mod Same
mod Tests
