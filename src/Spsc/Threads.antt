-- ===== src/Spsc/Threads.antt =====
-- The ring between its two threads: `push` and `pop` as the accesses that the other thread can see.
pub mod Defs
pub mod Inv
pub mod Producing
pub mod Consuming
pub mod Order
pub mod Progress
mod Tests
