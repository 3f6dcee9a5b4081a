-- ===== src/Xdag.antt =====
-- The package xdag: what the pool's protocol says of addresses, blocks and times.
pub mod Address
pub mod Block
pub mod Time
pub mod Connection
mod Tests
