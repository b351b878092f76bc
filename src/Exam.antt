-- ===== src/Exam.antt =====
-- Exams: grading (backend/app/exam_grading.py, domain/scoring.py), the grading worker
-- (infrastructure/worker/exam_grading_worker.py) and the handlers of presentation/exams.py.
pub mod Model
pub mod Scoring
pub mod Tasks
pub mod Leases
pub mod Worker
pub mod TrackingLaws
pub mod Finalize
pub mod Progress
pub mod Completion
pub mod Valid
pub mod Blocked
pub mod Handlers
pub mod Submit
pub mod Review
pub mod Submission
pub mod Legal
pub mod Races
pub mod Grading
pub mod GradingLaws
mod Examples
