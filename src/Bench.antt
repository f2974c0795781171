-- ===== src/Bench.antt =====
-- src/exchange_bench.cpp: the command line of the benchmark.
pub mod Defs
pub mod Commas
pub mod Arguments
pub mod Render
pub mod Program
mod Tests
