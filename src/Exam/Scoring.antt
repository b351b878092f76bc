-- ===== src/Exam/Scoring.antt =====
-- `compute_summary` of backend/app/domain/scoring.py.
use learn_loop.Prelude.{
  Bool-cases, inl, inr, refl, ℕ, ◌+◌, ◌≤◌, ◌<◌, ◌≡◌, Option, none, some, List, [], ◌∷◌, count_if,
  length, is_some, if◌then◌else◌, ltb, arith, Bool, all, Result, ok, err,
}
use learn_loop.Exam.Model.{ExamItem, Grading, Summary, GradingStatus, status_is, is_document}

-- What pydantic raises where a document is no `ExamItem`.
pub data ValidationError : Type 0 where
  invalid_item : ValidationError

-- The raw response is a document, or there is none. The other fields have the types that they are
-- written with.
abbrev pub is_valid_grading : Grading → Bool
is_valid_grading g = is_document g.raw_provider_response

abbrev pub is_valid_item : ExamItem → Bool
is_valid_item i = is_valid_grading i.grading

-- On items that `ExamItem.model_validate` accepts this is all of `build_exam_summary`. The handlers
-- and the finalization only build the summary of items that are stored, of new gradings without a
-- raw response and of self-reports, which keep the raw response that is stored, and no item is
-- stored with a text: `persist_item_result` is the only write of one.
unfoldable pub compute_summary : List ExamItem → Summary
compute_summary items =
    let correct = count_if (λ (i : ExamItem). status_is GradingStatus.correct i.grading) items in
    let failed = count_if (λ (i : ExamItem). status_is GradingStatus.incorrect i.grading) items in
    let graded = correct + failed in
    record {
      total = length items;
      answered = count_if (λ i. is_some i.answer_raw) items;
      graded = graded;
      pending = count_if (λ i. status_is GradingStatus.pending_review i.grading) items;
      correct = correct;
      failed = failed;
      score = if ltb 0 graded then some (correct, graded) else none;
    }

-- `build_exam_summary`: every item is validated first.
unfoldable pub build_exam_summary : List ExamItem → Result ValidationError Summary
unfolding compute_summary
build_exam_summary items =
    if all is_valid_item items then ok (compute_summary items) else err invalid_item

-- The numbers of items in each status add up to the number of items.
partition :
    (items : List ExamItem)
    → count_if (λ i. status_is GradingStatus.correct i.grading) items
        + count_if (λ i. status_is GradingStatus.incorrect i.grading) items
        + count_if (λ i. status_is GradingStatus.pending_review i.grading) items
        + count_if (λ i. status_is GradingStatus.ungraded i.grading) items
      ≡ length items
partition [] = omega arith
partition (i ∷ items) = ground (arith, partition items)

answered-le : (items : List ExamItem) → count_if (λ i. is_some i.answer_raw) items ≤ length items
answered-le [] = omega arith
answered-le (i ∷ items) = ground (arith, answered-le items)

abbrev pub IsFraction : ℕ → Option (ℕ × ℕ) → Type 0
IsFraction graded none = graded ≡ 0
IsFraction graded (some (n, d)) = (0 < d) × (n ≤ d) × (d ≡ graded)

fraction : (c f : ℕ) → IsFraction (c + f) (if ltb 0 (c + f) then some (c, c + f) else none)
fraction c f = elim (Bool-cases (ltb 0 (c + f))) [
  | inl e ↦ rw e (ground arith)
  | inr e ↦ rw e (ground arith)
]

-- A summary accounts for every item once: graded, pending and ungraded items are all the items, the
-- answered ones are at most those, and the score is a fraction between 0 and 1 with the graded
-- items below, absent exactly when none is graded.
pub summary_accounts :
    (items : List ExamItem)
    → let s = compute_summary items in
      (s.graded
          + s.pending
          + count_if (λ (i : ExamItem). status_is GradingStatus.ungraded i.grading) items
        ≡ s.total)
      × (s.answered ≤ s.total)
      × (s.graded ≡ s.correct + s.failed)
      × IsFraction s.graded s.score
unfolding compute_summary
summary_accounts items = (partition items, answered-le items, refl, fraction _ _)
