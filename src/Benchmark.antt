-- ===== src/Benchmark.antt =====
-- src/benchmark/BenchmarkRunner.cpp: a run of the engine over a list of orders, its counts and checks.
pub mod Defs
pub mod Accounts
pub mod Ids
pub mod Final
pub mod Passing
pub mod Filled
pub mod PoolRun
pub mod Pipeline
pub mod Modes
pub mod Csv
pub mod Table
mod Tests
