-- ===== src/Invocation.antt =====
-- The client library (packages/invocation/stockstat).
pub mod Scan
pub mod Dsl
pub mod Client
pub mod Indicators
pub mod Evaluator
