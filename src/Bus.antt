-- ===== src/Bus.antt =====
-- bus.go.
pub mod Subscriptions
pub mod Backoff
pub mod Locks
pub mod Publish
pub mod Distribution
pub mod Registration
pub mod State
pub mod Clients
pub mod ReplayMissed
pub mod Worker
pub mod Shutdown
pub mod Tickers
