-- ===== src/RateLimit.antt =====
-- Rate limiting (src/traffic/ratelimit): requests, leases on a quota, and the local counters.
pub mod Req
pub mod Lease
pub mod Rule
pub mod Select
pub mod Local
pub mod Tests
