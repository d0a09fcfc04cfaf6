-- ===== src/Metrics.antt =====
-- internal/metrics: the kinds of requests and durations, the aggregator, and its report.
pub mod Kinds
pub mod Overflow
pub mod Aggregator
pub mod Report
mod Tests
