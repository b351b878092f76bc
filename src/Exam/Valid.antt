-- ===== src/Exam/Valid.antt =====
-- Which gradings the validation before a summary accepts.
use learn_loop.Prelude.{
  ℕ, ◌≡◌, refl, some, String, List, [], ◌∷◌, Bool, true, false, arith, all, Result, ok, err,
}
use learn_loop.States.{ExamState}
use learn_loop.Exam.Model.{
  Exam, in_state, Grading, ExamItem, CorrectAnswer, ProblemType, is_document,
}
use learn_loop.Exam.Scoring.{
  compute_summary, build_exam_summary, invalid_item, is_valid_item, is_valid_grading,
}
use learn_loop.Exam.Grading.{Reply, GradeError, grade_item}
use learn_loop.Exam.Worker.{set_grading, grading_or_pending, persist_item_result, has_item}

pub set_grading-valid :
    (id : String) (g : Grading) (items : List ExamItem)
    → is_valid_grading g ≡ true
    → all is_valid_item items ≡ true
    → all is_valid_item (set_grading id g items) ≡ true
unfolding set_grading
set_grading-valid id g [] v h = refl
set_grading-valid id g (i ∷ items) v h = ground (arith, v, h, set_grading-valid id g items v)

-- The exam after one item was graded.
abbrev pub graded_exam : String → Grading → ℕ → Exam → Exam
graded_exam id g now e = record e {
  items = set_grading id g e.items;
  summary = compute_summary (set_grading id g e.items);
  updated_at = now;
}

module _ (id : String) (g : Grading) (now : ℕ) (e : Exam)
    (grading : in_state ExamState.grading e ≡ true) (has : has_item id e.items ≡ true) where
  pub persist-graded :
      all is_valid_item (set_grading id g e.items) ≡ true
      → persist_item_result id g now (some e) (some e)
        ≡ (some (graded_exam id g now e), ok (some (compute_summary (set_grading id g e.items))))
  unfolding persist_item_result build_exam_summary
  persist-graded v = rw (grading, has, v) (rw (has, grading) refl)

  pub persist-raises :
      all is_valid_item (set_grading id g e.items) ≡ false
      → persist_item_result id g now (some e) (some e) ≡ (some e, err invalid_item)
  unfolding persist_item_result build_exam_summary
  persist-raises v = rw (grading, has, v) refl

-- The provider's error, if it is one, does not have a text that was no JSON object.
abbrev pub is_parsed : Reply → Bool
is_parsed (Reply.vlm_error retryable message raw) = is_document raw
is_parsed _ = true

-- What is stored for an item is valid, also where its grading raised.
pub stored-valid :
    (is_equivalent : ProblemType → String → CorrectAnswer → Bool) (item : ExamItem)
    (image : Result GradeError (Unit {0})) (replies : ℕ → Reply) (now : ℕ)
    → ((n : ℕ) → is_parsed (replies n) ≡ true)
    → is_valid_grading (grading_or_pending now (grade_item is_equivalent item image replies now))
      ≡ true
unfolding grade_item
stored-valid is_equivalent item image replies now parsed = ground (arith, parsed 0, parsed 1)
