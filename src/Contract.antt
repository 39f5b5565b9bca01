-- ===== src/Contract.antt =====
-- crates/contract/src: the data that panel and agent exchange, and the pure functions on it.
pub mod Isp
pub mod Model
pub mod Protocol
pub mod Messages
pub mod Version
pub mod Snapshot
