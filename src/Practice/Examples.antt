-- ===== src/Practice/Examples.antt =====
-- An answer that the model cannot grade, in an exam and in practice.
use learn_loop.Prelude.{ℕ, ◌≡◌, refl, none, some, String, Bool, true, false, [], ok}
use learn_loop.Exam.Model.{ExamItem, GradingStatus, ProblemType, CorrectAnswer}
use learn_loop.Exam.Grading.{Reply, grade_item, result_of}
use learn_loop.Practice.Attempts.{grade_answer}
use learn_loop.Practice.Agreement.{status_of_item, status_of_grade, grade_answer-eq-grade_item}

abbrev asked : ExamItem
asked = record {
  item_id = "a";
  problem_id = 5;
  snapshot = record {
    text = "What is 2 + 2?";
    problem_type = ProblemType.short_answer;
    correct_answer = record { display = "4"; normalized_text = "4"; normalized_set = [] };
  };
  answer_raw = some "four";
  grading = result_of GradingStatus.pending_review "vlm" 11;
}

abbrev unavailable : ℕ → Reply
unavailable i = Reply.vlm_error true "unavailable" none

abbrev never : ProblemType → String → CorrectAnswer → Bool
never t raw stored = false

agreement_example :
    status_of_grade (
      grade_answer never asked.snapshot.problem_type asked.snapshot.correct_answer "four"
        (ok tt)
        unavailable)
    ≡ status_of_item (grade_item never asked (ok tt) unavailable 12)
agreement_example = grade_answer-eq-grade_item never asked "four" (ok tt) unavailable 12 refl
