-- ===== src/Render.antt =====
-- Render tasks of one scene of a video, submitted to a provider and refreshed from it.
pub mod Types
pub mod Repository
pub mod Execution
pub mod Spent
pub mod Sending
pub mod Once
pub mod Steps
pub mod Recovery
pub mod Scenes
pub mod Creation
pub mod Numbered
pub mod Reuse
pub mod Making
mod Tests
