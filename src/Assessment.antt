-- ===== src/Assessment.antt =====
-- backend/app/domain/ingestion/variation.py: when a variant passes, and what a teacher may override.
mod Failures
unfoldable pub use Failures.*
pub mod Exclusive
pub mod Reports
pub mod Gate
pub mod Verdict
pub mod Override
mod Examples
