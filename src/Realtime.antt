-- ===== src/Realtime.antt =====
-- src/realtime: socket subscriptions and the dispatch of updates to them.
pub mod Dispatch
pub mod Subscriptions
pub mod Gateway
