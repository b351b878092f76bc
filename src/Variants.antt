-- ===== src/Variants.antt =====
-- backend/app/infrastructure/problem_variants/repository.py: the sessions in which a variant of a
-- problem is generated, validated, edited and admitted.
pub mod Drafts
pub mod Sessions
pub mod Repository
pub mod Edit
pub mod Run
pub mod Invariant
pub mod Fencing
pub mod Reservations
pub mod Attest
pub mod EditLaws
pub mod Executor
pub mod Execution
mod Examples
mod ExecutionExamples
