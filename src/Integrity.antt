-- ===== src/Integrity.antt =====
-- crates/panel/src/dns_integrity.rs: the check of the DNS records, of the local zones and of the line groups.
-- Provider is the check of Cloudflare's records, Local that of the local zones; Groups is the checks that only read.
pub mod Report
pub mod Desired
pub mod Records
pub mod Local
pub mod Groups
pub mod Reporting
pub mod Careful
pub mod Keeping
mod Tests
