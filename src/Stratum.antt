-- ===== src/Stratum.antt =====
-- The package stratum: JSON-RPC between the miner and the proxy.
pub mod Json
pub mod Request
pub mod Codec
pub mod Client
mod Tests
