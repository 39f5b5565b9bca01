-- ===== src/Ddns.antt =====
-- crates/panel/src/ddns.rs: which addresses a node may have, and the refresh of the resolved ones.
pub mod Address
pub mod Refresh
pub mod Fresh
mod Tests
