-- ===== src/Forge.antt =====
-- backend/slurm-gateway/internal/gateway/artifact_forge.go: the Artifact Forge.
mod Examples
mod Tests
pub mod Types
pub mod Store
pub mod Rules
pub mod Judgment
pub mod Manager
pub mod Association
pub mod Intake
pub mod Kept
pub mod History
pub mod Eligible
pub mod Caps
