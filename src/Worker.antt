-- ===== src/Worker.antt =====
-- internal/worker/udp_worker.go and udp_worker_ultra.go: a worker, its batches, its measurements,
-- its send loops and its life cycle.
pub mod State
pub mod Batch
pub mod Eps
pub mod Pid
pub mod Loops
pub mod Lifecycle
