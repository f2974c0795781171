-- ===== src/Interactive.antt =====
-- src/main.cpp: the arguments, and the interactive mode over the lines of the standard input.
pub mod Defs
pub mod Session
pub mod Replays
pub mod Program
