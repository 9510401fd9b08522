-- ===== src/Batch.antt =====
-- Batch video jobs.
pub mod Types
pub mod Status
pub mod Requests
pub mod Preflight
pub mod Repository
pub mod Service
pub mod Creates
pub mod Controls
pub mod Handler
pub mod Controlling
pub mod Controlled
pub mod Plans
pub mod Preflights
pub mod Slots
pub mod Adding
pub mod Creating
pub mod Running
pub mod Aggregate
pub mod Preparing
pub mod Reusing
pub mod Samples
mod Tests
