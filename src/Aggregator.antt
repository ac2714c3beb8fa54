-- ===== src/Aggregator.antt =====
-- crates/aggregator: receipts are collected for an epoch, batched by pool, proved and posted.
pub mod Collector
pub mod Batch
pub mod Service
