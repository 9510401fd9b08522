-- ===== src/Worker.antt =====
-- The worker that claims one job, runs its handler under a lease and reports the outcome.
pub mod Contracts
pub mod Context
pub mod Run
pub mod Reached
pub mod Boundary
pub mod Reports
pub mod Decisions
mod Tests
