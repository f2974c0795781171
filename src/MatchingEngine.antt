-- ===== src/MatchingEngine.antt =====
-- include/core/MatchingEngine.hpp and src/core/MatchingEngine.cpp.
pub mod Defs
pub mod Valid
pub mod Register
pub mod Bounds
pub mod Behaviour
pub mod Shares
mod Tests
