-- ===== src/Practice/Agreement.antt =====
-- Practice grades as exams do, but tracks otherwise.
use learn_loop.Prelude.{
  ℕ, ◌≡◌, Option, none, some, String, Bool, List, Result, ok, err, arith, if◌then◌else◌, not,
  count_if,
}
use learn_loop.Exam.Model.{ExamItem, GradingStatus, CorrectAnswer, ProblemType}
use learn_loop.Exam.Grading.{Reply, GradeError, grade_item}
use learn_loop.Exam.Worker.{Problem, track_items}
use learn_loop.Exam.TrackingLaws.{Tracked, counts_for, right_for, wrong_for, track_items-Tracked}
use learn_loop.Practice.Attempts.{is_right, Grade, grade_answer, track_attempt}

abbrev pub status_of_item : Result GradeError ExamItem → Result GradeError GradingStatus
status_of_item (ok i) = ok i.grading.status
status_of_item (err e) = err e

abbrev pub status_of_grade : Result GradeError Grade → Result GradeError GradingStatus
status_of_grade (ok g) = ok g.status
status_of_grade (err e) = err e

module _ (is_equivalent : ProblemType → String → CorrectAnswer → Bool) where
  -- For every item of an exam that has an answer, practice gives the same answer the same status as
  -- the exam does, whatever the model replies and whether or not the image loads.
  pub grade_answer-eq-grade_item :
      (item : ExamItem) (answer : String) (image : Result GradeError (Unit {0}))
      (replies : ℕ → Reply) (now : ℕ)
      → item.answer_raw ≡ some answer
      → status_of_grade (
          grade_answer is_equivalent item.snapshot.problem_type item.snapshot.correct_answer answer
            image replies)
        ≡ status_of_item (grade_item is_equivalent item image replies now)
  unfolding grade_answer grade_item
  grade_answer-eq-grade_item item answer image replies now h = ground arith

abbrev one_if : Bool → ℕ
one_if b = if b then 1 else 0

stale-Tracked :
    (s : GradingStatus) (later a b c : ℕ) (p : Problem) (o : Option Problem)
    → Tracked p a b c o
    → Tracked p 0 (one_if (is_right s)) (one_if (not (is_right s))) (track_attempt s later p o)
unfolding track_attempt
stale-Tracked s later a b c p none h = absurd h
stale-Tracked s later a b c p (some q) h = ground arith

-- If an exam is finalized between the read and the write of an attempt, the exam's answers, which
-- had been counted in the problem, are lost: what is stored has the count before the exam, the
-- attempt added.
pub attempt_loses_finalization :
    (s : GradingStatus) (user_id now later k : ℕ) (items : List ExamItem) (m : ℕ → Option Problem)
    (p : Problem)
    → m k ≡ some p
    → p.user_id ≡ user_id
    → let finalized = track_items user_id now items m k in
      Tracked p
        (count_if (counts_for k) items)
        (count_if (right_for k) items)
        (count_if (wrong_for k) items)
        finalized
      × Tracked p 0
          (if is_right s then 1 else 0)
          (if not (is_right s) then 1 else 0)
          (track_attempt s later p finalized)
attempt_loses_finalization s user_id now later k items m p h u =
    let counted = track_items-Tracked user_id now k items m p h u in
    (counted, stale-Tracked s later _ _ _ p (track_items user_id now items m k) counted)
