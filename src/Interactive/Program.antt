-- ===== src/Interactive/Program.antt =====
-- `main` of src/main.cpp as a whole.
pub mod Defs
pub mod Talks
mod Tests
