-- ===== src/Exam/GradingLaws.antt =====
-- Grading always comes to a terminal status, in at most two calls of the provider.
use learn_loop.Prelude.{
  ℕ, ◌≤◌, ◌≡◌, Option, none, some, String, Bool, true, false, arith, Result, ok, err,
}
use learn_loop.Exam.Model.{
  ExamItem, Grading, GradingStatus, CorrectAnswer, ProblemType, is_terminal, status_is,
}
use learn_loop.Exam.Grading.{Reply, GradeError, grade_loop, grade_item}

-- What holds of a grading that an attempt ends in.
pub record IsGraded (g : Grading) : Type 0 where
  pub terminal : is_terminal g ≡ true
  pub retried : g.retry_count ≤ 1
  pub reviewed : status_is GradingStatus.pending_review g ≡ true → g.is_correct ≡ none
  pub decided :
      status_is GradingStatus.pending_review g ≡ false
      → g.is_correct ≡ some (status_is GradingStatus.correct g)

abbrev pub Returns : Option Grading → Type 0
Returns none = ⊥
Returns (some g) = IsGraded g

loop-Returns : (replies : ℕ → Reply) (now : ℕ) → Returns (grade_loop 2 replies 0 now)
unfolding grade_loop
loop-Returns replies now = ground arith

abbrev pub Grades : Result GradeError ExamItem → ExamItem → Type 0
Grades (err e) item = ⊥
Grades (ok g) item =
    IsGraded g.grading
    × (g.answer_raw ≡ item.answer_raw)
    × (g.item_id ≡ item.item_id)
    × (g.problem_id ≡ item.problem_id)

module _ (is_equivalent : ProblemType → String → CorrectAnswer → Bool) where
  -- Whatever the provider replies, an item whose image loads is graded: its status is terminal, it
  -- was retried at most once, it is pending review exactly when it has no verdict, and its answer
  -- and its identity are kept.
  pub grade_item_total :
      (item : ExamItem) (replies : ℕ → Reply) (now : ℕ)
      → Grades (grade_item is_equivalent item (ok tt) replies now) item
  unfolding grade_item
  grade_item_total item replies now = ground arith
