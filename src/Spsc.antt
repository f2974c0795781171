-- ===== src/Spsc.antt =====
-- include/utils/SpscRingBuffer.hpp.
pub mod Mask
pub mod Defs
pub mod Slots
pub mod Shape
pub mod Fifo
pub mod New
pub mod Threads
mod Tests
