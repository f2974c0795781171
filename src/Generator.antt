-- ===== src/Generator.antt =====
-- include/benchmark/OrderGenerator.hpp and src/benchmark/OrderGenerator.cpp: random orders for a benchmark.
pub mod Defs
pub mod Loop
pub mod Stream
pub mod Swap
pub mod Made
pub mod Whole
pub mod Samples
mod Tests
