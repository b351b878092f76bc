-- ===== src/Exam/Handlers.antt =====
-- Saving an answer and discarding an exam (backend/app/presentation/exams.py). A handler reads the exam
-- first and writes later: `seen` is what it read, `current` or the database what it writes to.
use learn_loop.Prelude.{
  ℕ, Option, none, some, String, List, [], ◌∷◌, ◌||◌, find_first, str_eq, ◌==◌, if◌then◌else◌,
  Result, ok, err,
}
use learn_loop.States.{ExamState}
use learn_loop.Exam.Model.{Exam, ExamItem, in_state}
use learn_loop.Exam.Scoring.{compute_summary}

-- `ApiError` by its code, and an exception of grading that no handler catches.
pub data ApiError : Type 0 where
  not_found forbidden invalid_exam_state answers_modified item_not_pending_review unhandled :
      ApiError

-- `get_owned_exam`
unfoldable pub get_owned_exam : Option Exam → ℕ → Result ApiError Exam
get_owned_exam none user_id = err not_found
get_owned_exam (some e) user_id = if e.user_id == user_id then ok e else err forbidden

-- `find_item`
unfoldable pub find_item : Exam → String → Result ApiError ExamItem
find_item e item_id = elim (find_first (λ i. str_eq i.item_id item_id) e.items) [
  | none ↦ err not_found
  | some i ↦ ok i
]

-- `items[item_index] = updated_item` for the first item with the id.
unfoldable pub set_answer : String → String → List ExamItem → List ExamItem
set_answer id answer [] = []
set_answer id answer (i ∷ items) =
    if str_eq i.item_id id
    then record i { answer_raw = some answer } ∷ items
    else i ∷ set_answer id answer items

-- The write of an answer: all the items that were read, under a filter on the state alone.
abbrev write_answer : List ExamItem → ℕ → Option Exam → Result ApiError (Unit {0}) × Option Exam
write_answer items now none = (err invalid_exam_state, none)
write_answer items now (some e) =
    if in_state ExamState.in_progress e
    then (
      ok tt,
      some (record e { items = items; summary = compute_summary items; updated_at = now }),
    )
    else (err invalid_exam_state, some e)

abbrev save_found :
    Result ApiError ExamItem
    → Exam
    → String
    → String
    → ℕ
    → Option Exam
    → Result ApiError (Unit {0}) × Option Exam
save_found (err x) e id answer now current = (err x, current)
save_found (ok i) e id answer now current = write_answer (set_answer id answer e.items) now current

abbrev save_owned :
    Result ApiError Exam
    → String
    → String
    → ℕ
    → Option Exam
    → Result ApiError (Unit {0}) × Option Exam
save_owned (err x) id answer now current = (err x, current)
save_owned (ok e) id answer now current =
    if in_state ExamState.in_progress e
    then save_found (find_item e id) e id answer now current
    else (err invalid_exam_state, current)

unfoldable pub save_answer :
    ℕ → String → String → ℕ → Option Exam → Option Exam → Result ApiError (Unit {0}) × Option Exam
unfolding get_owned_exam find_item set_answer
save_answer user_id id answer now seen current =
    save_owned (get_owned_exam seen user_id) id answer now current

-- `discard_exam`: the state is tested on the exam that was read, and the write has no filter on it.
abbrev pub discarded_exam : ℕ → Exam → Exam
discarded_exam now e = record e {
  state = ExamState.discarded;
  discarded_at = some now;
  updated_at = now;
}

abbrev map_exam : (Exam → Exam) → Option Exam → Option Exam
map_exam f none = none
map_exam f (some e) = some (f e)

abbrev discard_owned :
    Result ApiError Exam → ℕ → Option Exam → Result ApiError (Unit {0}) × Option Exam
discard_owned (err x) now current = (err x, current)
discard_owned (ok e) now current =
    if in_state ExamState.in_progress e || in_state ExamState.grading e
    then (ok tt, map_exam (discarded_exam now) current)
    else (err invalid_exam_state, current)

unfoldable pub discard_exam :
    ℕ → ℕ → Option Exam → Option Exam → Result ApiError (Unit {0}) × Option Exam
unfolding get_owned_exam
discard_exam user_id now seen current = discard_owned (get_owned_exam seen user_id) now current
