-- ===== src/Witnesses.antt =====
-- Concrete inputs on which the theorems are applied.
pub mod Data
mod Config
mod Worker
mod Loops
mod Pool
mod Metrics
mod Monitor
mod Hub
mod Generator
mod App
mod Web
