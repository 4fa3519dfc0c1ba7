-- ===== src/Dispatch.antt =====
-- The dispatcher (packages/dispatcher/stockstat_dispatcher): its queue, its worker registry, its
-- data cache, sharding and merging, and the dispatcher itself.
pub mod Queue
pub mod Workers
pub mod Cache
pub mod SliceId
pub mod Shard
pub mod State
pub mod Client
pub mod Assign
pub mod Outcome
pub mod Watch
pub mod Report
pub mod Run
pub mod Redis
pub mod Cluster
