-- ===== src/Feed.antt =====
-- include/feed and src/feed: the event log and the market data feed.
pub mod EventLog
pub mod MarketData
