-- ===== src/Practice.antt =====
-- backend/app/presentation/practice.py: grading one answer, and tracking it.
pub mod Attempts
pub mod Agreement
mod Examples
