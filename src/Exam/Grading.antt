-- ===== src/Exam/Grading.antt =====
-- backend/app/exam_grading.py: grading one item, and the tracking of its problem.
use learn_loop.Prelude.{
  ℕ, zero, suc, ◌+◌, Option, none, some, String, Bool, true, false, ◌&&◌, if◌then◌else◌, ltb,
  Result, ok, err,
}
use learn_loop.Exam.Model.{
  ExamItem, Grading, GradingStatus, CorrectAnswer, ProblemType, Tracking, ungraded_grading,
  short_answer, RawResponse, json_object,
}

-- `build_grading_result` with the defaults of its keyword arguments.
abbrev pub result_of : GradingStatus → String → ℕ → Grading
result_of status method now = record ungraded_grading {
  status = status;
  method = some method;
  graded_at = some now;
}

abbrev pub verdict_status : Bool → GradingStatus
verdict_status true = GradingStatus.correct
verdict_status false = GradingStatus.incorrect

abbrev pub points : Bool → ℕ
points true = 1
points false = 0

abbrev pub verdict_of : Bool → String → ℕ → Grading
verdict_of is_correct method now = record (result_of (verdict_status is_correct) method now) {
  is_correct = some is_correct;
  score = some (points is_correct);
}

-- What a call of `vlm_client.grade_short_answer` ends with. A verdict has the body of the response;
-- an error has the body, or the text that was no JSON object, if it has either.
pub data Reply : Type 0 where
  graded : Bool → String → String → String → Reply
  vlm_error : Bool → String → Option RawResponse → Reply
  other_error : String → Reply

-- An exception that leaves `grade_item`: the source image could not be loaded.
pub data GradeError : Type 0 where
  image_error : String → GradeError

module _ (is_equivalent : ProblemType → String → CorrectAnswer → Bool) where
  -- `is_equivalent` is `compare_answers (normalize_answer raw type) stored type`.
  is_right : ExamItem → Bool
  is_right item = elim item.answer_raw [
    | none ↦ false
    | some raw ↦ is_equivalent item.snapshot.problem_type raw item.snapshot.correct_answer
  ]

  unfoldable pub grade_objective_item : ExamItem → ℕ → ExamItem
  unfolding is_right
  grade_objective_item item now = record item {
    grading = verdict_of (is_right item) "normalized-match" now;
  }

-- One turn of the `while True`: a grading, or another turn.
abbrev pub answer_turn : Reply → ℕ → ℕ → Option Grading
answer_turn (graded right feedback model raw) retry_count now =
    some (record (verdict_of right "vlm" now) {
      feedback = some feedback;
      provider_model = some model;
      raw_provider_response = some (json_object raw);
      retry_count = retry_count;
    })
answer_turn (vlm_error retryable message raw) retry_count now =
    if retryable && ltb retry_count 1
    then none
    else some (record (result_of GradingStatus.pending_review "vlm" now) {
      feedback = some message;
      raw_provider_response = raw;
      retry_count = retry_count;
    })
answer_turn (other_error message) retry_count now =
    some (record (result_of GradingStatus.pending_review "vlm" now) {
      feedback = some message;
      retry_count = retry_count;
    })

-- The loop, with the replies of the provider by the number of the call. `none` means that the fuel
-- ran out.
unfoldable pub grade_loop : ℕ → (ℕ → Reply) → ℕ → ℕ → Option Grading
grade_loop zero replies retry_count now = none
grade_loop (suc fuel) replies retry_count now =
    elim (answer_turn (replies retry_count) retry_count now) [
      | some g ↦ some g
      | none ↦ grade_loop fuel replies (retry_count + 1) now
    ]

abbrev or_ungraded : Option Grading → Grading
or_ungraded none = ungraded_grading
or_ungraded (some g) = g

-- Two turns: an answer is retried at most once.
unfoldable pub grade_short_answer_item :
    ExamItem → Result GradeError (Unit {0}) → (ℕ → Reply) → ℕ → Result GradeError ExamItem
unfolding grade_loop
grade_short_answer_item item image replies now = elim item.answer_raw [
  | none ↦ ok (record item { grading = verdict_of false "normalized-match" now })
  | some raw ↦ elim image [
    | err e ↦ err e
    | ok _ ↦ ok (record item { grading = or_ungraded (grade_loop 2 replies 0 now) })
  ]
]

module _ (is_equivalent : ProblemType → String → CorrectAnswer → Bool) where
  dispatch :
      ProblemType
      → ExamItem
      → Result GradeError (Unit {0})
      → (ℕ → Reply)
      → ℕ
      → Result GradeError ExamItem
  unfolding grade_short_answer_item grade_objective_item
  dispatch short_answer item image replies now = grade_short_answer_item item image replies now
  dispatch _ item image replies now = ok (grade_objective_item is_equivalent item now)

  unfoldable pub grade_item :
      ExamItem → Result GradeError (Unit {0}) → (ℕ → Reply) → ℕ → Result GradeError ExamItem
  unfolding dispatch
  grade_item item image replies now = dispatch item.snapshot.problem_type item image replies now

unfoldable pub build_tracking_update : Tracking → ℕ → Bool → Tracking
build_tracking_update t now is_correct = record {
  exposure_count = t.exposure_count + 1;
  correct_count = t.correct_count + (if is_correct then 1 else 0);
  failed_count = t.failed_count + (if is_correct then 0 else 1);
  last_tested_at = some now;
  last_attempt_correct = some is_correct;
}
