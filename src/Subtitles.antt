-- ===== src/Subtitles.antt =====
-- Subtitles of a composition.
pub mod Times
pub mod Webvtt
pub mod Ass
pub mod Clocks
pub mod Lines
pub mod Readback
pub mod Escapes
pub mod Document
pub mod Unbroken
pub mod Rendered
mod Tests
