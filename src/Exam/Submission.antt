-- ===== src/Exam/Submission.antt =====
-- What a submission brings about, and that repeating it changes nothing.
use learn_loop.Prelude.{
  ℕ, ◌≡◌, refl, subst, Option, none, some, String, List, [], ◌∷◌, Bool, true, false, ◌||◌, ◌==◌,
  arith, Result, ok, err, ◌>>=◌, Bool-cases, inl, inr, eq_iff, ==-refl,
}
use learn_loop.States.{ExamState}
use learn_loop.Exam.Model.{Exam, ExamItem, CorrectAnswer, ProblemType, is_terminal, in_state}
use learn_loop.Exam.Scoring.{compute_summary}
use learn_loop.Exam.Grading.{Reply, GradeError, grade_item}
use learn_loop.Exam.Worker.{Db, has_item}
use learn_loop.Exam.Progress.{DistinctItems}
use learn_loop.Exam.Handlers.{get_owned_exam}
use learn_loop.Exam.Submit.{
  requires_vlm_grading, exam_requires_vlm_grading, same_answer, answers_unchanged, grade_all,
  submit_graded, submit_owned, submit_exam, submit_synchronous, submit_asynchronous, grading_task,
}

-- An item that is not in the list does not matter to the comparison.
unchanged-skip :
    (items current : List ExamItem) (j : ExamItem)
    → has_item j.item_id items ≡ false
    → answers_unchanged items (j ∷ current) ≡ answers_unchanged items current
unfolding answers_unchanged
unchanged-skip [] current j h = refl
unchanged-skip (i ∷ items) current j h =
    ground (
      arith,
      unchanged-skip items current j,
      eq_iff j.item_id i.item_id,
      eq_iff i.item_id j.item_id,
    )

same_answer_refl : (a : Option String) → same_answer a (some a) ≡ true
same_answer_refl none = refl
same_answer_refl (some a) = (eq_iff a a).1 refl

-- Answers that nobody changed pass the comparison.
unchanged_refl :
    (items : List ExamItem) → DistinctItems items → answers_unchanged items items ≡ true
unfolding answers_unchanged
unchanged_refl [] d = refl
unchanged_refl (i ∷ items) d = ground (
  arith,
  (eq_iff i.item_id i.item_id).1 refl,
  same_answer_refl i.answer_raw,
  unchanged-skip items items i d.0,
  unchanged_refl items d.1,
)

-- Every item is terminal and keeps its answer.
abbrev pub AllGraded : List ExamItem → List ExamItem → Type 0
AllGraded [] [] = Unit
AllGraded (i ∷ items) (g ∷ graded) =
    (is_terminal g.grading ≡ true)
    × (g.item_id ≡ i.item_id)
    × (g.answer_raw ≡ i.answer_raw)
    × AllGraded items graded
AllGraded _ _ = ⊥

module _ (is_equivalent : ProblemType → String → CorrectAnswer → Bool)
    (image : ExamItem → Result GradeError (Unit {0})) (replies : ExamItem → ℕ → Reply) where
  abbrev graded_at : ℕ → ExamItem → Result GradeError ExamItem
  graded_at now i = grade_item is_equivalent i (image i) (replies i) now

  abbrev IsGradedAs : ExamItem → Result GradeError ExamItem → Type 0
  IsGradedAs i (err e) = ⊥
  IsGradedAs i (ok g) =
      (is_terminal g.grading ≡ true) × (g.item_id ≡ i.item_id) × (g.answer_raw ≡ i.answer_raw)

  offline :
      (i : ExamItem) (now : ℕ) → requires_vlm_grading i ≡ false → IsGradedAs i (graded_at now i)
  unfolding grade_item
  offline i now h = ground arith

  abbrev AllGradedAs : List ExamItem → Result GradeError (List ExamItem) → Type 0
  AllGradedAs items (err e) = ⊥
  AllGradedAs items (ok graded) = AllGraded items graded

  cons-AllGradedAs :
      (i : ExamItem) (items : List ExamItem) (g : Result GradeError ExamItem)
      (gs : Result GradeError (List ExamItem))
      → IsGradedAs i g
      → AllGradedAs items gs
      → AllGradedAs (i ∷ items) (g >>= λ x. gs >>= λ xs. ok (x ∷ xs))
  cons-AllGradedAs i items (err e) gs h k = absurd h
  cons-AllGradedAs i items (ok g) (err e) h k = absurd k
  cons-AllGradedAs i items (ok g) (ok gs) h k = (h.0, h.1, h.2, k)

  grade_all-AllGraded :
      (items : List ExamItem) (now : ℕ)
      → exam_requires_vlm_grading items ≡ false
      → AllGradedAs items (grade_all (graded_at now) items)
  unfolding grade_all
  grade_all-AllGraded [] now h = tt
  grade_all-AllGraded (i ∷ items) now h =
      cons-AllGradedAs i items (graded_at now i) (grade_all (graded_at now) items)
        (offline i now (ground arith)) (grade_all-AllGraded items now (ground arith))

  -- The exam is submitted at `now`, and every item is graded.
  abbrev pub IsSubmitted : ℕ → Exam → Option Exam → Type 0
  IsSubmitted now e none = ⊥
  IsSubmitted now e (some t) =
      (in_state ExamState.submitted t ≡ true)
      × AllGraded e.items t.items
      × (t.summary ≡ compute_summary t.items)
      × (t.submitted_at ≡ some now)
      × (t.user_id ≡ e.user_id)

  transaction-IsSubmitted :
      (r : Result GradeError (List ExamItem)) (exam_id user_id now : ℕ) (e : Exam) (db : Db)
      → AllGradedAs e.items r
      → db.exams exam_id ≡ some e
      → e.user_id ≡ user_id
      → in_state ExamState.in_progress e ≡ true
      → answers_unchanged e.items e.items ≡ true
      → let (answer, db') = submit_graded r e.items exam_id user_id now db in
        (answer ≡ ok tt) × IsSubmitted now e (db'.exams exam_id)
  transaction-IsSubmitted (err x) exam_id user_id now e db a h u p same = absurd a
  transaction-IsSubmitted (ok graded) exam_id user_id now e db a h u p same =
      let own : e.user_id == user_id ≡ true = ground arith in
      rw (h, same, own, p, ==-refl exam_id) (refl, (refl, a, refl, refl, refl))

  -- The exam waits for the worker as it was answered, with one new task.
  abbrev pub IsFrozen : ℕ → ℕ → ℕ → ℕ → Exam → Db → Db → Type 0
  IsFrozen id exam_id user_id now e db db' =
      (db'.exams exam_id ≡ some (record e { state = ExamState.grading; updated_at = now }))
      × (db'.tasks ≡ (id, grading_task exam_id user_id now) ∷ db.tasks)

  abbrev pub Submits : Bool → ℕ → ℕ → ℕ → ℕ → Exam → Db → Db → Type 0
  Submits true id exam_id user_id now e db db' = IsFrozen id exam_id user_id now e db db'
  Submits false id exam_id user_id now e db db' = IsSubmitted now e (db'.exams exam_id)

  again :
      (other exam_id user_id later : ℕ) (t : Exam) (db : Db)
      → t.user_id ≡ user_id
      → (in_state ExamState.grading t || in_state ExamState.submitted t) ≡ true
      → submit_exam is_equivalent image replies other exam_id user_id later (some t) db
        ≡ (ok tt, db)
  unfolding submit_exam submit_owned get_owned_exam
  again other exam_id user_id later t db u p =
      let own : t.user_id == user_id ≡ true = ground arith in rw (own, p) refl

  Submits-again :
      (b : Bool) (id other exam_id user_id now later : ℕ) (e : Exam) (db db' : Db) (o : Option Exam)
      → db'.exams exam_id ≡ o
      → e.user_id ≡ user_id
      → Submits b id exam_id user_id now e db db'
      → submit_exam is_equivalent image replies other exam_id user_id later o db' ≡ (ok tt, db')
  Submits-again true id other exam_id user_id now later e db db' none h u s =
      absurd (ground (arith, h, s.0))
  Submits-again true id other exam_id user_id now later e db db' (some t) h u s =
      again other exam_id user_id later t db' (ground (arith, h, s.0)) (ground (arith, h, s.0))
  Submits-again false id other exam_id user_id now later e db db' none h u s =
      absurd (subst (IsSubmitted now e) h s)
  Submits-again false id other exam_id user_id now later e db db' (some t) h u s =
      let done : IsSubmitted now e (some t) = subst (IsSubmitted now e) h s in
      again other exam_id user_id later t db' (ground arith) (ground arith)

  lands :
      (id exam_id user_id now : ℕ) (e : Exam) (db : Db)
      → db.exams exam_id ≡ some e
      → e.user_id ≡ user_id
      → in_state ExamState.in_progress e ≡ true
      → DistinctItems e.items
      → let (answer, db') =
          submit_exam is_equivalent image replies id exam_id user_id now (some e) db in
        (answer ≡ ok tt)
        × Submits (exam_requires_vlm_grading e.items) id exam_id user_id now e db db'
  unfolding submit_exam submit_owned submit_synchronous submit_asynchronous get_owned_exam
  lands id exam_id user_id now e db h u p d =
      let own : e.user_id == user_id ≡ true = ground arith in
      let busy : in_state ExamState.grading e || in_state ExamState.submitted e ≡ false =
        ground arith in
      elim (Bool-cases (exam_requires_vlm_grading e.items)) [
        | inl v ↦ rw (own, busy, p, v, h, own, busy, p) (refl, (ground arith, refl))
        | inr v ↦
            rw (own, busy, p, v)
              (transaction-IsSubmitted (grade_all (graded_at now) e.items) exam_id user_id now e db
                (grade_all-AllGraded e.items now v) h u p (unchanged_refl e.items d))
      ]

  -- Submitting an exam in progress succeeds for its user. If no short answer was given, the exam is
  -- submitted at once: every item is graded and keeps its answer, whatever the model or the images
  -- would give. Otherwise the exam is frozen, and one task for the worker is added. A second
  -- submission at any time succeeds and changes nothing. The items' ids are assumed to differ.
  pub submit_exam_lem :
      (id other exam_id user_id now later : ℕ) (e : Exam) (db : Db)
      → db.exams exam_id ≡ some e
      → e.user_id ≡ user_id
      → in_state ExamState.in_progress e ≡ true
      → DistinctItems e.items
      → let (answer, db') =
          submit_exam is_equivalent image replies id exam_id user_id now (some e) db in
        (answer ≡ ok tt)
        × Submits (exam_requires_vlm_grading e.items) id exam_id user_id now e db db'
        × (submit_exam is_equivalent image replies other exam_id user_id later
              (db'.exams exam_id)
              db'
            ≡ (ok tt, db'))
  submit_exam_lem id other exam_id user_id now later e db h u p d =
      let first = lands id exam_id user_id now e db h u p d in
      (
        first.0,
        first.1,
        Submits-again (exam_requires_vlm_grading e.items) id other exam_id user_id now later e db _
            _ refl u first.1,
      )
