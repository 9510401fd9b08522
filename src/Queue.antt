-- ===== src/Queue.antt =====
-- The execution queue.
pub mod Types
pub mod Repository
pub mod Requests
pub mod Service
pub mod Leases
pub mod Claim
pub mod Lifecycle
pub mod Attempts
pub mod Invariant
pub mod Rows
pub mod Sound
pub mod Calls
pub mod Granted
pub mod Candidate
pub mod Unflushed
pub mod Claiming
pub mod Outcomes
pub mod Written
pub mod Writing
pub mod Accepting
pub mod System
pub mod Guarantees
pub mod Recovery
pub mod Selection
pub mod Creation
pub mod Controls
pub mod Samples
mod Tests
