-- ===== src/Cloudflare.antt =====
-- crates/panel/src/cloudflare.rs: the client of the Cloudflare DNS API, and the set-up of the panel's records.
-- The HTTP client and the parsers of its answers are the record `Provider`.
pub mod Records
pub mod Client
pub mod Ensure
pub mod Conservative
mod Tests
