-- ===== src/Jobs.antt =====
-- src/jobs/publish: publish tasks, claimed and executed under leases.
pub mod Policy
pub mod Rows
pub mod Worker
pub mod Execution
pub mod Due
pub mod Leases
pub mod Recovery
pub mod Steps
mod Tests
