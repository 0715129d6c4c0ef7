-- ===== src/Fleet.antt =====
-- backend/slurm-gateway/internal/gateway/fleet_board_intents.go and lifecycle_health.go: the intents of
-- the fleet board, and the health of the scheduled work.
mod Tests
pub mod Health
pub mod Module
pub mod Sessions
pub mod Intents
pub mod Managers
