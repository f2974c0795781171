-- ===== src/Benchmark/Table.antt =====
-- src/benchmark/BenchmarkRunner.cpp: `printTable`, what a benchmark shows of its result.
pub mod Defs
pub mod Groups
mod Tests
