-- ===== src/Backtest.antt =====
-- The backtest engine (packages/compute/stockstat_compute/backtest), over an interface of the
-- arithmetic of floats.
pub mod Arith
pub mod Portfolio
pub mod Models
pub mod Broker
pub mod Engine
pub mod Metrics
pub mod Results
pub mod Searches
