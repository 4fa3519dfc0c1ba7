-- ===== src/Compute.antt =====
-- The compute package (packages/compute/stockstat_compute): where tasks run.
pub mod Local
pub mod Auto
pub mod Checkpoint
pub mod Worker
pub mod Remote
pub mod Indicators
pub mod Handlers
