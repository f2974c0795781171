-- ===== src/Benchmark/Csv.antt =====
-- src/benchmark/BenchmarkRunner.cpp: `saveCsv`, the file of results.
pub mod Defs
pub mod Columns
mod Tests
