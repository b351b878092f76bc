-- ===== src/Exam/Review.antt =====
-- `self_report_exam_item` of backend/app/presentation/exams.py.
use learn_loop.Prelude.{
  ℕ, Option, none, some, String, List, Bool, not, ◌==◌, if◌then◌else◌, Result, ok, err,
}
use learn_loop.States.{ExamState}
use learn_loop.Exam.Model.{Exam, ExamItem, Grading, GradingStatus, status_is, in_state}
use learn_loop.Exam.Scoring.{compute_summary}
use learn_loop.Exam.Grading.{verdict_status, points}
use learn_loop.Exam.Worker.{Db, put, track_problem, set_grading}
use learn_loop.Exam.Handlers.{
  ApiError, not_found, invalid_exam_state, item_not_pending_review, get_owned_exam, find_item,
}

-- The user's own verdict on an item that is pending review.
abbrev pub self_reported : Bool → ℕ → Grading → Grading
self_reported right now g = record g {
  status = verdict_status right;
  method = some "self-report";
  is_correct = some right;
  score = some (points right);
  graded_at = some now;
  self_reported_correct = some right;
}

-- The transaction of a self-report: only the state of the exam is tested again.
abbrev pub report_transaction :
    ExamItem → List ExamItem → Bool → ℕ → ℕ → ℕ → Option Exam → Db → Result ApiError (Unit {0}) × Db
report_transaction i items right exam_id user_id now none db = (err not_found, db)
report_transaction i items right exam_id user_id now (some e) db =
    if not (e.user_id == user_id)
    then (err not_found, db)
    else if in_state ExamState.submitted e
    then (
      ok tt,
      record db {
        exams =
            put exam_id
              (record e { items = items; summary = compute_summary items; updated_at = now })
              db.exams;
        problems = track_problem user_id i.problem_id now right db.problems;
      },
    )
    else (err invalid_exam_state, db)

abbrev pub report_item :
    Result ApiError ExamItem
    → Exam
    → String
    → Bool
    → ℕ
    → ℕ
    → ℕ
    → Db
    → Result ApiError (Unit {0}) × Db
report_item (err x) e id right exam_id user_id now db = (err x, db)
report_item (ok i) e id right exam_id user_id now db =
    if status_is GradingStatus.pending_review i.grading
    then report_transaction i (set_grading id (self_reported right now i.grading) e.items) right
        exam_id user_id now (db.exams exam_id) db
    else (err item_not_pending_review, db)

abbrev pub report_owned :
    Result ApiError Exam → String → Bool → ℕ → ℕ → ℕ → Db → Result ApiError (Unit {0}) × Db
report_owned (err x) id right exam_id user_id now db = (err x, db)
report_owned (ok e) id right exam_id user_id now db =
    if in_state ExamState.submitted e
    then report_item (find_item e id) e id right exam_id user_id now db
    else (err invalid_exam_state, db)

unfoldable pub self_report :
    String → Bool → ℕ → ℕ → ℕ → Option Exam → Db → Result ApiError (Unit {0}) × Db
unfolding get_owned_exam find_item
self_report id right exam_id user_id now seen db =
    report_owned (get_owned_exam seen user_id) id right exam_id user_id now db
