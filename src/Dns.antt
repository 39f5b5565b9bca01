-- ===== src/Dns.antt =====
-- The DNS server of the panel: the resolver (Answer), the zones (Zone, ZoneRecords), the client subnet
-- (Ecs) and the request handler (Handler), with what is proved of them.
pub mod Answer
pub mod Matching
pub mod Resolving
pub mod Serving
pub mod Clock
pub mod Ecs
pub mod Zone
pub mod ZoneMatching
pub mod ZoneRecords
pub mod Handler
pub mod Replies
pub mod Tests
