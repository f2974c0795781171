-- ===== src/LatencyTimer.antt =====
-- include/benchmark/LatencyTimer.hpp and src/benchmark/LatencyTimer.cpp: the times of the calls.
pub mod Defs
pub mod Sorting
pub mod Bounds
pub mod Report
mod Tests
