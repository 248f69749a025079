-- ===== src/Pool.antt =====
-- internal/worker/worker_pool.go: the pool of workers that a profile describes.
pub mod State
pub mod Initialize
pub mod Settings
pub mod Numbering
pub mod Running
pub mod Cycle
pub mod Aggregate
pub mod Sums
pub mod Reports
pub mod Fresh
pub mod Live
pub mod Stopping
pub mod Working
pub mod Modes
pub mod Tuning
