-- ===== src/Simops.antt =====
-- The SimOps run control of backend/slurm-gateway/internal/gateway (simops_*.go).
pub mod Types
pub mod Config
pub mod Connection
pub mod Profile
pub mod State
pub mod Facts
pub mod Derive
pub mod Store
pub mod Worker
pub mod Changes
pub mod Runtime
pub mod Outbox
pub mod LaunchCheck
pub mod Contract
pub mod Planner
pub mod Recovery
pub mod Retry
pub mod Start
pub mod StopOrchestrator
pub mod Request
pub mod Ingest
pub mod Controller
pub mod Tests
