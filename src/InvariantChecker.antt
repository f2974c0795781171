-- ===== src/InvariantChecker.antt =====
-- src/benchmark/InvariantChecker.cpp: the checks that a benchmark run makes of its books, trades and
-- ids.
pub mod Defs
pub mod Passes
pub mod Reports
mod Tests
