-- ===== src/Exam/Worker.antt =====
-- The grading worker's writes and its loop over one task (exam_grading_worker.py, from line 132).
use learn_loop.Prelude.{
  ℕ, zero, suc, Option, none, some, String, List, [], ◌∷◌, Bool, true, false, ◌&&◌, not, all, any,
  find_first, str_eq, ◌==◌, if◌then◌else◌, Result, ok, err,
}
use learn_loop.States.{ExamState}
use learn_loop.Exam.Model.{
  Exam, ExamItem, Grading, GradingStatus, Summary, Tracking, status_is, is_terminal, in_state,
}
use learn_loop.Exam.Scoring.{compute_summary, build_exam_summary, ValidationError}
use learn_loop.Exam.Grading.{build_tracking_update, GradeError, image_error, result_of}
use learn_loop.Exam.Tasks.{Tasks, verify_ownership, complete_task}

pub record Problem : Type 0 where
  pub user_id : ℕ
  pub tracking : Tracking
  pub updated_at : ℕ

-- The collections, by `_id`.
pub record Db : Type 0 where
  pub exams : ℕ → Option Exam
  pub problems : ℕ → Option Problem
  pub tasks : Tasks

abbrev pub put {ℓ} : {D : Type ℓ} → ℕ → D → (ℕ → Option D) → ℕ → Option D
put id d m j = if id == j then some d else m j

-- `updated_items[target_index]["grading"] = grading`, and `items.$.grading`: the first item with
-- this id.
unfoldable pub set_grading : String → Grading → List ExamItem → List ExamItem
set_grading id g [] = []
set_grading id g (i ∷ items) =
    if str_eq i.item_id id then record i { grading = g } ∷ items else i ∷ set_grading id g items

abbrev pub has_item : String → List ExamItem → Bool
has_item id items = any (λ i. str_eq i.item_id id) items

-- The conditional write, with the summary that was computed from the exam read before.
abbrev write_item : String → Grading → Summary → ℕ → Option Exam → Option Exam × Option Summary
write_item id g summary now none = (none, none)
write_item id g summary now (some e) =
    if has_item id e.items && in_state ExamState.grading e
    then (
      some (record e { items = set_grading id g e.items; summary = summary; updated_at = now }),
      some summary,
    )
    else (some e, none)

abbrev Persisted : Type 0
Persisted = Option Exam × Result ValidationError (Option Summary)

abbrev write_summary :
    String → Grading → Result ValidationError Summary → ℕ → Option Exam → Persisted
write_summary id g (err e) now current = (current, err e)
write_summary id g (ok summary) now current =
    let (exam, written) = write_item id g summary now current in (exam, ok written)

-- `seen` is the exam as `find_one` returned it, `current` the exam at the write. The summary may
-- raise, before the write.
unfoldable pub persist_item_result : String → Grading → ℕ → Option Exam → Option Exam → Persisted
unfolding set_grading build_exam_summary
persist_item_result id g now none current = (current, ok none)
persist_item_result id g now (some seen) current =
    if in_state ExamState.grading seen && has_item id seen.items
    then write_summary id g (build_exam_summary (set_grading id g seen.items)) now current
    else (current, ok none)

-- `bool(grading.get("isCorrect"))`
abbrev pub truth : Option Bool → Bool
truth none = false
truth (some b) = b

abbrev track_found : Option Problem → ℕ → ℕ → ℕ → Bool → (ℕ → Option Problem) → ℕ → Option Problem
track_found none user_id problem_id now right m = m
track_found (some p) user_id problem_id now right m =
    if p.user_id == user_id
    then put problem_id
        (record p { tracking = build_tracking_update p.tracking now right; updated_at = now }) m
    else m

-- The read and the write of one problem's tracking, inside a transaction.
unfoldable pub track_problem : ℕ → ℕ → ℕ → Bool → (ℕ → Option Problem) → ℕ → Option Problem
track_problem user_id problem_id now right m =
    track_found (m problem_id) user_id problem_id now right m

-- The loop over the items of a finalized exam.
unfoldable pub track_items : ℕ → ℕ → List ExamItem → (ℕ → Option Problem) → ℕ → Option Problem
track_items user_id now [] m = m
track_items user_id now (i ∷ items) m = track_items user_id now items (
    if status_is GradingStatus.pending_review i.grading
    then m
    else track_problem user_id i.problem_id now (truth i.grading.is_correct) m)

abbrev pub submitted_exam : ℕ → Exam → Exam
submitted_exam now e = record e {
  state = ExamState.submitted;
  summary = compute_summary e.items;
  submitted_at = some now;
  updated_at = now;
}

-- What the transaction writes for an exam whose items are all terminal.
abbrev pub finalized : Exam → ℕ → ℕ → ℕ → String → ℕ → Db → Db
finalized e exam_id user_id task_id token now db = record db {
  exams = put exam_id (submitted_exam now e) db.exams;
  problems = track_items user_id now e.items db.problems;
  tasks = (complete_task task_id token now db.tasks).0;
}

abbrev pub finalize_found : Option Exam → ℕ → ℕ → ℕ → String → ℕ → Db → Db × Bool
finalize_found none exam_id user_id task_id token now db = (db, false)
finalize_found (some e) exam_id user_id task_id token now db =
    if in_state ExamState.submitted e
    then (record db { tasks = (complete_task task_id token now db.tasks).0 }, true)
    else if in_state ExamState.grading e && all (λ i. is_terminal i.grading) e.items
    then (finalized e exam_id user_id task_id token now db, true)
    else (db, false)

-- `_finalize_exam`: one transaction, so its reads and writes are one step.
unfoldable pub finalize_exam : ℕ → ℕ → ℕ → String → ℕ → Db → Db × Bool
finalize_exam exam_id user_id task_id token now db =
    finalize_found (db.exams exam_id) exam_id user_id task_id token now db

-- One turn of the loop of `process_exam_grading_task`: another follows, or it returns or raises.
pub data Turn : Type 0 where
  again : Db → Turn
  stop : Db → Turn
  raise : Db → Turn

-- What is stored for an item, also where `grade_item` raised.
abbrev pub grading_or_pending : ℕ → Result GradeError ExamItem → Grading
grading_or_pending now (ok item) = item.grading
grading_or_pending now (err (image_error message)) =
    record (result_of GradingStatus.pending_review "vlm" now) { feedback = some message }

abbrev set_slot : ℕ → Option Exam → (ℕ → Option Exam) → ℕ → Option Exam
set_slot id none m = m
set_slot id (some e) m = put id e m

abbrev turn_after : ℕ → Db → Persisted → Turn
turn_after exam_id db (exam, ok _) = again (record db { exams = set_slot exam_id exam db.exams })
turn_after exam_id db (exam, err _) = raise db

-- How the loop ends.
pub data Ended : Type 0 where
  returned raised : Db → Ended

module _ (grade : ExamItem → ℕ → Result GradeError ExamItem) (exam_id user_id task_id : ℕ)
    (token : String) where
  -- The exam is in grading: its first item that is not terminal is graded, or it is finalized.
  grade_next : Option ExamItem → Exam → ℕ → Db → Turn
  grade_next none e now db = stop (finalize_exam exam_id user_id task_id token now db).0
  grade_next (some i) e now db =
      if verify_ownership task_id token db.tasks
      then turn_after exam_id db (
          persist_item_result i.item_id (grading_or_pending now (grade i now)) now (some e)
            (some e))
      else stop db

  turn_exam : Option Exam → ℕ → Db → Turn
  unfolding grade_next
  turn_exam none now db = stop db
  turn_exam (some e) now db =
      if in_state ExamState.submitted e
      then stop (record db { tasks = (complete_task task_id token now db.tasks).0 })
      else if in_state ExamState.grading e
      then grade_next (find_first (λ i. not (is_terminal i.grading)) e.items) e now db
      else stop db

  unfoldable pub turn : ℕ → Db → Turn
  unfolding turn_exam
  turn now db =
      if verify_ownership task_id token db.tasks
      then turn_exam (db.exams exam_id) now db
      else stop db

  -- The loop, for a worker that no one interferes with; `none` means that the fuel ran out.
  unfoldable pub process_task : ℕ → (ℕ → ℕ) → Db → Option Ended
  unfolding turn
  process_task zero clock db = none
  process_task (suc fuel) clock db = elim (turn (clock fuel) db) [
    | stop db' ↦ some (returned db')
    | raise db' ↦ some (raised db')
    | again db' ↦ process_task fuel clock db'
  ]
