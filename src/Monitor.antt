-- ===== src/Monitor.antt =====
-- internal/monitor: the control server, and the dashboard.
pub mod Control
pub mod Handlers
pub mod Validation
pub mod Invariant
pub mod Service
pub mod Requests
pub mod Sequences
pub mod Starting
pub mod Update
pub mod Machine
pub mod Restarting
pub mod Status
pub mod Launch
pub mod Hub
pub mod Dashboard
