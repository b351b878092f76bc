-- ===== src/Practice/Attempts.antt =====
-- `_grade_answer` and the writes of `get_next_practice_problem` and `submit_practice_attempt`.
use learn_loop.Prelude.{
  ℕ, zero, suc, ◌+◌, Option, none, some, String, Bool, true, false, if◌then◌else◌, Result, ok, err,
}
use learn_loop.Exam.Model.{GradingStatus, CorrectAnswer, ProblemType, Tracking}
use learn_loop.Exam.Grading.{Reply, GradeError, verdict_status}
use learn_loop.Exam.Worker.{Problem}

-- `GradingMethod`
pub data GradingMethod : Type 0 where
  normalized_match vlm : GradingMethod

pub record Grade : Type 0 where
  pub status : GradingStatus
  pub method : GradingMethod
  pub feedback : Option String

abbrev pending : Grade
pending = record { status = GradingStatus.pending_review; method = vlm; feedback = none }

-- `for _ in range(n)`, the calls of the model numbered from `i`.
unfoldable pub grade_calls : ℕ → (ℕ → Reply) → ℕ → Grade
grade_calls zero replies i = pending
grade_calls (suc n) replies i =
    let rest = grade_calls n replies (i + 1) in
    elim (replies i) [
      | Reply.graded right feedback model raw ↦ record {
        status = verdict_status right;
        method = vlm;
        feedback = some feedback;
      }
      | Reply.vlm_error retryable message raw ↦ if retryable then rest else pending
      | Reply.other_error message ↦ pending
    ]

abbrev by_image : Result GradeError (Unit {0}) → Grade → Result GradeError Grade
by_image (err e) g = err e
by_image (ok _) g = ok g

module _ (is_equivalent : ProblemType → String → CorrectAnswer → Bool) where
  -- The answer of a problem that is not a short answer is compared, as `grade_objective_item` does.
  unfoldable pub grade_answer :
      ProblemType
      → CorrectAnswer
      → String
      → Result GradeError (Unit {0})
      → (ℕ → Reply)
      → Result GradeError Grade
  unfolding grade_calls
  grade_answer ProblemType.short_answer correct answer image replies =
      by_image image (grade_calls 2 replies 0)
  grade_answer t correct answer image replies = ok (record {
    status = verdict_status (is_equivalent t answer correct);
    method = normalized_match;
    feedback = none;
  })

-- `grading_status == GradingStatus.CORRECT`
abbrev pub is_right : GradingStatus → Bool
is_right s = elim s [ GradingStatus.correct ↦ true | _ ↦ false ]

unfoldable pub attempt_tracking : GradingStatus → ℕ → Tracking → Tracking
attempt_tracking s now t = record t {
  correct_count = t.correct_count + (if is_right s then 1 else 0);
  failed_count = t.failed_count + (if is_right s then 0 else 1);
  last_tested_at = some now;
  last_attempt_correct = some (is_right s);
}

-- The write of a tracking that was computed from the problem as it was read: a filter on the `_id`.
abbrev pub write_tracking : Tracking → ℕ → Option Problem → Option Problem
write_tracking t now none = none
write_tracking t now (some p) = some (record p { tracking = t; updated_at = now })

-- `seen` is the problem that the request read, `current` the stored one at the write.
unfoldable pub track_attempt : GradingStatus → ℕ → Problem → Option Problem → Option Problem
unfolding attempt_tracking
track_attempt s now seen current = write_tracking (attempt_tracking s now seen.tracking) now current

-- The exposure that `get_next_practice_problem` counts.
unfoldable pub track_exposure : ℕ → Problem → Option Problem → Option Problem
track_exposure now seen current =
    write_tracking (record (seen.tracking) { exposure_count = seen.tracking.exposure_count + 1 })
      now current
