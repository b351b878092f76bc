-- ===== src/Exam/Completion.antt =====
-- A worker that nobody interferes with brings an exam from grading to submitted.
use learn_loop.Prelude.{
  ==-refl, ℕ, zero, suc, ◌<◌, ◌≡◌, refl, Option, none, some, String, Bool, true, arith, all,
  Option-cases, inl, inr, Result,
}
use learn_loop.States.{ExamState}
use learn_loop.Exam.Model.{Exam, ExamItem, CorrectAnswer, ProblemType, is_terminal, in_state}
use learn_loop.Exam.Scoring.{compute_summary, is_valid_item, is_valid_grading}
use learn_loop.Exam.Valid.{is_parsed, graded_exam, persist-graded, set_grading-valid, stored-valid}
use learn_loop.Exam.Grading.{Reply, GradeError, grade_item}
use learn_loop.Exam.Tasks.{Task, Tasks, completed, find_task, verify_ownership, complete_task}
use learn_loop.Exam.Leases.{find-set_self}
use learn_loop.Exam.Worker.{
  Db, put, set_grading, finalized, grading_or_pending, process_task, turn, again, stop, Ended,
  returned, raised,
}
use learn_loop.Exam.Finalize.{finalize-eq}
use learn_loop.Exam.Progress.{
  DistinctItems, open_count, next_open, all_terminal, progress, next-has_item,
  set_grading-DistinctItems,
}

-- The exam as the loop leaves it.
abbrev pub IsFinished : Option Exam → Type 0
IsFinished none = ⊥
IsFinished (some e) =
    (in_state ExamState.submitted e ≡ true)
    × (all (λ (i : ExamItem). is_terminal i.grading) e.items ≡ true)
    × (e.summary ≡ compute_summary e.items)

abbrev pub IsCompleted : Option Task → Type 0
IsCompleted none = ⊥
IsCompleted (some t) = t.status ≡ completed

abbrev pub Finishes : ℕ → ℕ → Option Ended → Type 0
Finishes exam_id task_id none = ⊥
Finishes exam_id task_id (some (raised db)) = ⊥
Finishes exam_id task_id (some (returned db)) =
    IsFinished (db.exams exam_id) × IsCompleted (find_task task_id db.tasks)

complete-IsCompleted :
    (id now : ℕ) (token : String) (ts : Tasks)
    → verify_ownership id token ts ≡ true
    → IsCompleted (find_task id (complete_task id token now ts).0)
unfolding verify_ownership complete_task
complete-IsCompleted id now token ts h = elim (Option-cases (find_task id ts)) [
  | inl e ↦ absurd (ground arith)
  | inr (t, e) ↦ rw h (rw (find-set_self id _ ts t e) refl)
]

module _ (grade : ExamItem → ℕ → Result GradeError ExamItem) (exam_id user_id task_id : ℕ)
    (token : String) where
  turn-stop :
      (now : ℕ) (db : Db) (e : Exam)
      → db.exams exam_id ≡ some e
      → in_state ExamState.grading e ≡ true
      → verify_ownership task_id token db.tasks ≡ true
      → next_open e.items ≡ none
      → turn grade exam_id user_id task_id token now db
        ≡ stop (finalized e exam_id user_id task_id token now db)
  unfolding turn
  turn-stop now db e h g o n =
      rw (o, h, n, finalize-eq exam_id user_id task_id now token db e h g (all_terminal e.items n))
        (ground arith)

  turn-again :
      (now : ℕ) (db : Db) (e : Exam) (i : ExamItem)
      → db.exams exam_id ≡ some e
      → in_state ExamState.grading e ≡ true
      → verify_ownership task_id token db.tasks ≡ true
      → next_open e.items ≡ some i
      → all is_valid_item (set_grading i.item_id (grading_or_pending now (grade i now)) e.items)
        ≡ true
      → turn grade exam_id user_id task_id token now db
        ≡ again (record db {
          exams =
              put exam_id
                (graded_exam i.item_id (grading_or_pending now (grade i now)) now e)
                db.exams;
        })
  unfolding turn
  turn-again now db e i h g o n v =
      rw
        (
          o,
          h,
          n,
          persist-graded i.item_id (grading_or_pending now (grade i now)) now e g
              (next-has_item e.items i n) v,
        )
        (ground arith)

  process-stop :
      (fuel : ℕ) (clock : ℕ → ℕ) (db db' : Db)
      → turn grade exam_id user_id task_id token (clock fuel) db ≡ stop db'
      → process_task grade exam_id user_id task_id token (suc fuel) clock db ≡ some (returned db')
  unfolding process_task
  process-stop fuel clock db db' h = rw (h, process_task) refl

  process-again :
      (fuel : ℕ) (clock : ℕ → ℕ) (db db' : Db)
      → turn grade exam_id user_id task_id token (clock fuel) db ≡ again db'
      → process_task grade exam_id user_id task_id token (suc fuel) clock db
        ≡ process_task grade exam_id user_id task_id token fuel clock db'
  unfolding process_task
  process-again fuel clock db db' h = rw (h, process_task) refl

  module _
      (terminal : (i : ExamItem) (now : ℕ)
        → is_terminal (grading_or_pending now (grade i now)) ≡ true)
      (valid : (i : ExamItem) (now : ℕ)
        → is_valid_grading (grading_or_pending now (grade i now)) ≡ true) where
    kept :
        (i : ExamItem) (now : ℕ) (e : Exam)
        → all is_valid_item e.items ≡ true
        → all is_valid_item (set_grading i.item_id (grading_or_pending now (grade i now)) e.items)
          ≡ true
    kept i now e v = set_grading-valid i.item_id _ e.items (valid i now) v

    -- With more fuel than there are items to grade, the loop finishes the exam and the task.
    process-Finishes :
        (fuel : ℕ) (clock : ℕ → ℕ) (db : Db) (e : Exam)
        → db.exams exam_id ≡ some e
        → in_state ExamState.grading e ≡ true
        → verify_ownership task_id token db.tasks ≡ true
        → all is_valid_item e.items ≡ true
        → DistinctItems e.items
        → open_count e.items < fuel
        → Finishes exam_id task_id (process_task grade exam_id user_id task_id token fuel clock db)
    process-Finishes zero clock db e h g o v d m = absurd (omega arith)
    process-Finishes (suc fuel) clock db e h g o v d m = elim (Option-cases (next_open e.items)) [
      | inl n ↦ rw (process-stop fuel clock db _ (turn-stop (clock fuel) db e h g o n)) (
        rw ==-refl (refl, all_terminal e.items n, refl),
        complete-IsCompleted task_id (clock fuel) token db.tasks o,
      )
      | inr (i, n) ↦
          rw
            (process-again fuel clock db _
              (turn-again (clock fuel) db e i h g o n (kept i (clock fuel) e v)))
            (process-Finishes fuel clock
              (record db {
                exams =
                    put exam_id
                      (graded_exam i.item_id
                        (grading_or_pending (clock fuel) (grade i (clock fuel))) (clock fuel) e)
                      db.exams;
              })
              (graded_exam i.item_id (grading_or_pending (clock fuel) (grade i (clock fuel)))
                (clock fuel) e)
              (ground arith) g o (kept i (clock fuel) e v)
              (set_grading-DistinctItems i.item_id _ e.items d)
              (omega (
                arith,
                progress e.items i (grading_or_pending (clock fuel) (grade i (clock fuel))) d n
                    (terminal i (clock fuel)),
              )))
    ]

-- Whatever an item's grading ended in, also where it raised, what is stored is terminal.
stored-terminal :
    (is_equivalent : ProblemType → String → CorrectAnswer → Bool) (item : ExamItem)
    (image : Result GradeError (Unit {0})) (replies : ℕ → Reply) (now : ℕ)
    → is_terminal (grading_or_pending now (grade_item is_equivalent item image replies now)) ≡ true
unfolding grade_item
stored-terminal is_equivalent item image replies now = ground arith

-- A worker that owns the task of an exam in grading, and that nobody interferes with, leaves the
-- exam submitted, with every item in a terminal status and the summary of those items, and the task
-- completed, in at most one turn for each item still to grade and one more: whether or not images
-- load, and whatever the provider replies, except an error with a text that is no JSON object. The
-- items' ids are assumed to differ, and no stored raw response to be such a text.
pub process_task_completes :
    (is_equivalent : ProblemType → String → CorrectAnswer → Bool)
    (image : ExamItem → Result GradeError (Unit {0})) (replies : ExamItem → ℕ → Reply)
    (exam_id user_id task_id fuel : ℕ) (token : String) (clock : ℕ → ℕ) (db : Db) (e : Exam)
    → db.exams exam_id ≡ some e
    → in_state ExamState.grading e ≡ true
    → verify_ownership task_id token db.tasks ≡ true
    → ((i : ExamItem) (n : ℕ) → is_parsed (replies i n) ≡ true)
    → all is_valid_item e.items ≡ true
    → DistinctItems e.items
    → open_count e.items < fuel
    → Finishes exam_id task_id (
        process_task
          (λ i now. grade_item is_equivalent i (image i) (replies i) now)
          exam_id
          user_id
          task_id
          token
          fuel
          clock
          db)
process_task_completes is_equivalent image replies exam_id user_id task_id fuel token clock db e h g
      o parsed v d m =
    process-Finishes (λ i now. grade_item is_equivalent i (image i) (replies i) now) exam_id user_id
      task_id token (λ i now. stored-terminal is_equivalent i (image i) (replies i) now)
      (λ i now. stored-valid is_equivalent i (image i) (replies i) now (parsed i)) fuel clock db e h
      g o v d m
