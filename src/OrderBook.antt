-- ===== src/OrderBook.antt =====
-- include/core/OrderBook.hpp and src/core/OrderBook.cpp.
pub mod Defs
pub mod Match
pub mod Query
pub mod Valid
pub mod Round
pub mod Drain
pub mod Ledger
pub mod Priority
pub mod Places
pub mod Entry
pub mod Rest
pub mod Sides
pub mod Drained
pub mod Preserve
pub mod Modest
pub mod Leaves
pub mod Cancel
pub mod Removal
pub mod Cancelled
pub mod Liquidity
pub mod Outcomes
pub mod Checks
pub mod Known
pub mod Abstract
pub mod Shares
mod Tests
