-- ===== src/Storage.antt =====
-- The storage service (packages/storage/stockstat_backend).
pub mod Collector
pub mod QueryCache
pub mod Tables
pub mod Incoming
pub mod Backend
