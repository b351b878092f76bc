-- ===== src/Exam/TrackingLaws.antt =====
-- Finalizing counts every reviewed item of an exam once in the tracking of its problem.
use learn_loop.Prelude.{
  ◌∙◌, ℕ, ◌+◌, ◌≡◌, Option, none, some, List, [], ◌∷◌, Bool, ◌&&◌, not, arith, count_if, ◌==◌,
  if◌then◌else◌,
}
use learn_loop.Exam.Model.{ExamItem, GradingStatus, status_is}
use learn_loop.Exam.Grading.{build_tracking_update}
use learn_loop.Exam.Worker.{Problem, track_items, track_problem, truth}

-- An item that counts for the problem: not pending review, and right or wrong.
abbrev pub counts_for : ℕ → ExamItem → Bool
counts_for p i = i.problem_id == p && not (status_is GradingStatus.pending_review i.grading)

abbrev pub right_for : ℕ → ExamItem → Bool
right_for p i = counts_for p i && truth i.grading.is_correct

abbrev pub wrong_for : ℕ → ExamItem → Bool
wrong_for p i = counts_for p i && not (truth i.grading.is_correct)

-- The problem after `exposures` more answers, of which so many were right and wrong.
abbrev pub Tracked : Problem → ℕ → ℕ → ℕ → Option Problem → Type 0
Tracked p exposures rights wrongs none = ⊥
Tracked p exposures rights wrongs (some q) =
    (q.user_id ≡ p.user_id)
    × (q.tracking.exposure_count ≡ p.tracking.exposure_count + exposures)
    × (q.tracking.correct_count ≡ p.tracking.correct_count + rights)
    × (q.tracking.failed_count ≡ p.tracking.failed_count + wrongs)

abbrev one_if : Bool → ℕ
one_if b = if b then 1 else 0

Tracked-trans :
    (p q : Problem) (o : Option Problem) (a b c d e f : ℕ)
    → Tracked p a b c (some q)
    → Tracked q d e f o
    → Tracked p (a + d) (b + e) (c + f) o
Tracked-trans p q none a b c d e f h k = absurd k
Tracked-trans p q (some r) a b c d e f h k = ground arith

-- The problem `k` after one item.
abbrev after_item : ℕ → ℕ → ExamItem → Problem → Problem
after_item now k i q =
    if counts_for k i
    then record q {
      tracking = build_tracking_update q.tracking now (truth i.grading.is_correct);
      updated_at = now;
    }
    else q

after_item-Tracked :
    (now k : ℕ) (i : ExamItem) (q : Problem)
    → Tracked q
        (one_if (counts_for k i))
        (one_if (right_for k i))
        (one_if (wrong_for k i))
        (some (after_item now k i q))
unfolding build_tracking_update
after_item-Tracked now k i q = ground arith

step-lookup :
    (user_id now k : ℕ) (i : ExamItem) (m : ℕ → Option Problem) (q : Problem)
    → m k ≡ some q
    → q.user_id ≡ user_id
    → (if status_is GradingStatus.pending_review i.grading
          then m
          else track_problem user_id i.problem_id now (truth i.grading.is_correct) m)
        k
      ≡ some (after_item now k i q)
unfolding track_problem
step-lookup user_id now k i m q h u = ground arith

owner-after_item :
    (now k : ℕ) (i : ExamItem) (q : Problem) → (after_item now k i q).user_id ≡ q.user_id
owner-after_item now k i q = ground arith

-- Tracking an exam's items adds, to each problem of that user, one exposure for each of its items
-- that is not pending review, one correct answer for each that is right, and one failure for each
-- that is wrong, however often the problem stands in the exam.
pub track_items-Tracked :
    (user_id now k : ℕ) (items : List ExamItem) (m : ℕ → Option Problem) (q : Problem)
    → m k ≡ some q
    → q.user_id ≡ user_id
    → Tracked q
        (count_if (counts_for k) items)
        (count_if (right_for k) items)
        (count_if (wrong_for k) items)
        (track_items user_id now items m k)
unfolding track_items
track_items-Tracked user_id now k [] m q h u = rw h (ground arith)
track_items-Tracked user_id now k (i ∷ items) m q h u =
    Tracked-trans q (after_item now k i q) _ _ _ _ _ _ _ (after_item-Tracked now k i q) (
      track_items-Tracked user_id now k items _ (after_item now k i q)
        (step-lookup user_id now k i m q h u) (owner-after_item now k i q ∙ u))
