-- ===== src/Twin.antt =====
-- backend/slurm-gateway/internal/gateway/twin_state_publication.go: publication of the states of the
-- digital twin.

mod Tests
pub mod Types
pub mod Validation
pub mod Publisher
