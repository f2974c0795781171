-- ===== src/Bench/Program.antt =====
-- src/exchange_bench.cpp: the program as a whole.
pub mod Defs
pub mod Succeeds
pub mod Refuses
mod Tests
