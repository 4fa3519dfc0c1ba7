-- ===== src/Tests.antt =====
-- The theorems applied at concrete inputs, and runs of the definitions.
pub mod Samples
pub mod Trading
pub mod Working
pub mod Calling
pub mod Parsing
pub mod Collecting
pub mod Queues
pub mod Slices
pub mod Tasks
pub mod Registry
pub mod Cached
pub mod Computing
pub mod RedisServer
pub mod Database
pub mod Stored
pub mod Searching
pub mod Indicating
