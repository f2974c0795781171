-- ===== src/Replay.antt =====
-- include/benchmark/ReplayEngine.hpp and src/benchmark/ReplayEngine.cpp: the run over the orders of a file.
pub mod Defs
pub mod Same
pub mod Output
pub mod Digits
pub mod Format
pub mod Whole
mod Tests
