-- ===== src/Collector.antt =====
-- internal/collector: windows of offsets, their evaluation, and the collection of a cluster.
pub mod Types
pub mod Evaluator
pub mod Window
pub mod State
pub mod Partition
pub mod Group
pub mod Cycle
