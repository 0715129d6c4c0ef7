-- ===== src/Workbench.antt =====
-- The workbench of backend/slurm-gateway/internal/gateway, as far as other parts use its records.
pub mod Types
