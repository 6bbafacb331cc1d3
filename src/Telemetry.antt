-- ===== src/Telemetry.antt =====
-- internal/telemetry.
pub mod Attributes
pub mod Endpoint
pub mod Providers
pub mod Emitter
pub mod Exporters
pub mod Assembly
pub mod Harness
