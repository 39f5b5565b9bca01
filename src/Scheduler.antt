-- ===== src/Scheduler.antt =====
-- crates/panel/src/scheduler.rs: the capacity engine, the health classification of nodes and the
-- build of the availability snapshot.
pub mod Capacity
pub mod Saturation
pub mod Usage
pub mod Health
pub mod Tiers
pub mod Build
pub mod Serving
pub mod Tests
