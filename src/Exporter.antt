-- ===== src/Exporter.antt =====
-- The collector of exporter.go: calls of the Xray API with retries, and the metrics made of them.
pub mod Retry
pub mod Metrics
pub mod Collect
pub mod Setup
pub mod Followed
mod Tests
