-- ===== src/Protocol.antt =====
-- The protocol package of foundation (packages/foundation/stockstat_foundation/protocol): task
-- specifications, the values that they are encoded to, and the cache key of a data request.
pub mod Value
pub mod Task
pub mod Decode
pub mod RoundTrip
pub mod CacheKey
pub mod Envelope
pub mod Errors
pub mod Messages
