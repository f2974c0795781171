-- ===== src/Benchmark/Modes.antt =====
-- `BenchmarkRunner::run`: the generated orders, and the run in the configured mode.
pub mod Defs
pub mod Agree
pub mod Passes
mod Tests
