-- ===== src/Config.antt =====
-- internal/config: the profiles and the memory optimizer.
pub mod Profiles
pub mod Optimizer
pub mod Hints
