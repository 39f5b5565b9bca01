-- ===== src/Session.antt =====
-- crates/agent/src/conn.rs, config.rs and report.rs: the agent's side of a connection to the panel.
-- Config is config.rs and Report report.rs; the other children are conn.rs.
pub mod Config
pub mod Report
pub mod Backoff
pub mod Pushing
pub mod Loop
pub mod Handshake
pub mod Effects
pub mod Written
pub mod Acks
pub mod Truth
pub mod Isolated
pub mod Runs
pub mod Safety
pub mod Delays
pub mod KillSwitch
mod HostTests
mod Tests
