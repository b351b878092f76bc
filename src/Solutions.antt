-- ===== src/Solutions.antt =====
-- Canonical solutions: backend/app/solution_generation.py and the worker that generates them,
-- infrastructure/worker/solution_worker.py.
pub mod Tasks
pub mod Queue
pub mod Worker
pub mod Uniqueness
pub mod Retries
pub mod Late
pub mod Regeneration
mod Examples
