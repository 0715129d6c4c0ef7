-- ===== src/Simops/Tests.antt =====
-- Example records, and the theorems of the other modules at them.
mod Failures
pub mod Data
mod Workers
mod Stores
mod Profiles
mod Requests
mod Runs
mod Contract
