-- ===== src/Engine.antt =====
-- internal/engine.
pub mod RouteAttributes
pub mod Outcome
pub mod Emission
pub mod Timing
pub mod Scheduler
pub mod Lifecycle
pub mod Stats
