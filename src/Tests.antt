-- ===== src/Tests.antt =====
-- Concrete runs of the model, and each theorem at a concrete input.
mod Sample
mod Runs
mod ValidateWitness
mod ChaosWitness
mod EngineWitness
mod ConcurrencyWitness
mod TelemetryWitness
mod ProvidersWitness
mod InstrumentsWitness
mod CommandWitness
mod AssemblyWitness
mod StatsWitness
mod ProcessWitness
mod LifecycleWitness
