-- ===== src/Proxy.antt =====
-- The package proxy: jobs and shares of miners, the proxy that stands between a miner and the pool, and
-- the director that keeps the proxies.
pub mod Job
pub mod Share
pub mod State
pub mod Target
pub mod Account
pub mod Naming
pub mod Director
pub mod Submit
pub mod Notify
pub mod Close
pub mod Locking
pub mod Mining
pub mod Running
pub mod Detect
mod Tests
