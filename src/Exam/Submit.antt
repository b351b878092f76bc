-- ===== src/Exam/Submit.antt =====
-- `submit_exam` of backend/app/presentation/exams.py, with both kinds of submission.
use learn_loop.Prelude.{
  ◌>>=◌, ℕ, Option, none, some, String, List, [], ◌∷◌, Bool, true, false, ◌&&◌, ◌||◌, not, is_some,
  any, find_first, str_eq, ◌==◌, if◌then◌else◌, Result, ok, err,
}
use learn_loop.States.{ExamState}
use learn_loop.Exam.Model.{CorrectAnswer, Exam, ExamItem, ProblemType, in_state}
use learn_loop.Exam.Scoring.{compute_summary}
use learn_loop.Exam.Grading.{Reply, GradeError, grade_item}
use learn_loop.Exam.Tasks.{Task, pending}
use learn_loop.Exam.Worker.{Db, put, track_items}
use learn_loop.Exam.Handlers.{
  ApiError, not_found, invalid_exam_state, answers_modified, unhandled, get_owned_exam,
}

-- `requires_vlm_grading` and `exam_requires_vlm_grading`
abbrev pub requires_vlm_grading : ExamItem → Bool
requires_vlm_grading i = elim i.snapshot.problem_type [
  | ProblemType.short_answer ↦ is_some i.answer_raw
  | _ ↦ false
]

abbrev pub exam_requires_vlm_grading : List ExamItem → Bool
exam_requires_vlm_grading items = any requires_vlm_grading items

-- The `raw` of the current item with this id, and whether there is such an item.
abbrev current_answer : String → List ExamItem → Option (Option String)
current_answer id items = elim (find_first (λ i. str_eq i.item_id id) items) [
  | none ↦ none
  | some i ↦ some i.answer_raw
]

abbrev pub same_answer : Option String → Option (Option String) → Bool
same_answer a none = false
same_answer none (some none) = true
same_answer (some a) (some (some b)) = str_eq a b
same_answer _ _ = false

-- Every answer that was graded still stands. (Ids differ, so that the last item with an id, which
-- the code's dictionary holds, is the first one.)
unfoldable pub answers_unchanged : List ExamItem → List ExamItem → Bool
answers_unchanged [] current = true
answers_unchanged (i ∷ items) current =
    same_answer i.answer_raw (current_answer i.item_id current) && answers_unchanged items current

-- The transaction of a synchronous submission, for the items graded from the exam that was read.
abbrev pub submit_transaction :
    List ExamItem → List ExamItem → ℕ → ℕ → ℕ → Option Exam → Db → Result ApiError (Unit {0}) × Db
submit_transaction seen graded exam_id user_id now none db = (err not_found, db)
submit_transaction seen graded exam_id user_id now (some e) db =
    if not (e.user_id == user_id)
    then (err not_found, db)
    else if not (in_state ExamState.in_progress e)
    then (err invalid_exam_state, db)
    else if answers_unchanged seen e.items
    then (
      ok tt,
      record db {
        exams =
            put exam_id
              (record e {
                state = ExamState.submitted;
                items = graded;
                summary = compute_summary graded;
                submitted_at = some now;
                updated_at = now;
              })
              db.exams;
        problems = track_items user_id now graded db.problems;
      },
    )
    else (err answers_modified, db)

-- The graded items, or the first exception.
unfoldable pub grade_all :
    (ExamItem → Result GradeError ExamItem) → List ExamItem → Result GradeError (List ExamItem)
grade_all grade [] = ok []
grade_all grade (i ∷ items) = grade i >>= λ g. grade_all grade items >>= λ gs. ok (g ∷ gs)

abbrev pub submit_graded :
    Result GradeError (List ExamItem)
    → List ExamItem
    → ℕ
    → ℕ
    → ℕ
    → Db
    → Result ApiError (Unit {0}) × Db
submit_graded (err e) seen exam_id user_id now db = (err unhandled, db)
submit_graded (ok graded) seen exam_id user_id now db =
    submit_transaction seen graded exam_id user_id now (db.exams exam_id) db

module _ (is_equivalent : ProblemType → String → CorrectAnswer → Bool)
    (image : ExamItem → Result GradeError (Unit {0})) (replies : ExamItem → ℕ → Reply) where
  -- The items of `seen` are graded before the transaction.
  unfoldable pub submit_synchronous : ℕ → ℕ → ℕ → Exam → Db → Result ApiError (Unit {0}) × Db
  unfolding answers_unchanged grade_all
  submit_synchronous exam_id user_id now seen db =
      submit_graded
        (grade_all (λ i. grade_item is_equivalent i (image i) (replies i) now) seen.items)
        seen.items exam_id user_id now db

abbrev pub grading_task : ℕ → ℕ → ℕ → Task
grading_task exam_id user_id now = record {
  exam_id = exam_id;
  user_id = user_id;
  status = pending;
  claim_token = none;
  lease_until = none;
  created_at = now;
  updated_at = now;
}

-- The transaction of an asynchronous submission: freeze the exam, and store its task under `id`.
abbrev pub freeze : ℕ → ℕ → ℕ → ℕ → Option Exam → Db → Result ApiError (Unit {0}) × Db
freeze id exam_id user_id now none db = (err not_found, db)
freeze id exam_id user_id now (some e) db =
    if not (e.user_id == user_id)
    then (err not_found, db)
    else if in_state ExamState.grading e || in_state ExamState.submitted e
    then (ok tt, db)
    else if in_state ExamState.in_progress e
    then (
      ok tt,
      record db {
        exams = put exam_id (record e { state = ExamState.grading; updated_at = now }) db.exams;
        tasks = (id, grading_task exam_id user_id now) ∷ db.tasks;
      },
    )
    else (err invalid_exam_state, db)

unfoldable pub submit_asynchronous : ℕ → ℕ → ℕ → ℕ → Db → Result ApiError (Unit {0}) × Db
submit_asynchronous id exam_id user_id now db = freeze id exam_id user_id now (db.exams exam_id) db

module _ (is_equivalent : ProblemType → String → CorrectAnswer → Bool)
    (image : ExamItem → Result GradeError (Unit {0})) (replies : ExamItem → ℕ → Reply) where
  unfoldable pub submit_owned :
      Result ApiError Exam → ℕ → ℕ → ℕ → ℕ → Db → Result ApiError (Unit {0}) × Db
  unfolding submit_synchronous submit_asynchronous
  submit_owned (err x) id exam_id user_id now db = (err x, db)
  submit_owned (ok e) id exam_id user_id now db =
      if in_state ExamState.grading e || in_state ExamState.submitted e
      then (ok tt, db)
      else if not (in_state ExamState.in_progress e)
      then (err invalid_exam_state, db)
      else if exam_requires_vlm_grading e.items
      then submit_asynchronous id exam_id user_id now db
      else submit_synchronous is_equivalent image replies exam_id user_id now e db

  -- `submit_exam`; `seen` is the exam that it read, `id` the fresh `_id` of a task.
  unfoldable pub submit_exam : ℕ → ℕ → ℕ → ℕ → Option Exam → Db → Result ApiError (Unit {0}) × Db
  unfolding submit_owned get_owned_exam
  submit_exam id exam_id user_id now seen db =
      submit_owned (get_owned_exam seen user_id) id exam_id user_id now db
