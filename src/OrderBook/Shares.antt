-- ===== src/OrderBook/Shares.antt =====
-- What of each order is traded, and what rests, at every step of a book.
pub mod Defs
pub mod Loop
pub mod Calls
