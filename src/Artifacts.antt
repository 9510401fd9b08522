-- ===== src/Artifacts.antt =====
-- Stored videos and how they are served.
pub mod Range
pub mod Stream
pub mod Ranges
pub mod Streams
pub mod Headers
mod Tests
