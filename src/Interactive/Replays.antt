-- ===== src/Interactive/Replays.antt =====
-- src/main.cpp: the program with `--replay`.
pub mod Defs
pub mod Shows
mod Tests
