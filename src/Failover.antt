-- ===== src/Failover.antt =====
-- crates/agent/src/failover.rs: the failover engine of the agent.
-- A probe cycle folds the probe results of every replica into the per-rule state machines and
-- re-renders the configuration of a tool whose active backends changed.
pub mod Endpoint
pub mod Hysteresis
pub mod Rule
pub mod Selection
pub mod Switching
pub mod Engine
pub mod Push
pub mod Validity
pub mod Folding
pub mod Rendered
pub mod Cycle
pub mod Flat
mod Tests
