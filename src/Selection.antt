-- ===== src/Selection.antt =====
-- backend/app/domain: which problems an exam or a practice session draws.
pub mod Score
pub mod Sampling
pub mod Draws
pub mod Practice
mod Examples
