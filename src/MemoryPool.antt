-- ===== src/MemoryPool.antt =====
-- include/utils/MemoryPool.hpp: a fixed number of slots, handed out and taken back by index.
pub mod Defs
pub mod Valid
mod Tests
