-- ===== src/OrderBook/Abstract.antt =====
-- Books up to the order in which the unordered map `index_` holds its entries.
pub mod Same
pub mod Enter
pub mod Defs
pub mod Commute
mod Tests
