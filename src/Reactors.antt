-- ===== src/Reactors.antt =====
-- backend/slurm-gateway/internal/gateway/reactor_telemetry_worker_set.go: the telemetry workers of
-- the reactors of a game session.
mod Tests
pub mod Types
pub mod Config
pub mod Store
pub mod Sources
pub mod Credential
pub mod Manager
pub mod Relaunch
pub mod Registration
pub mod Cleanup
pub mod Changes
pub mod Reached
