-- ===== src/Exam/Legal.antt =====
-- The handlers and the worker move an exam only along `EXAM_TRANSITIONS`.
use learn_loop.Prelude.{
  true, false, if◌then◌else◌, not, ◌||◌, inr, ok, err, Bool-cases, ℕ, ◌≡◌, refl, ◌⊎◌, inl, inr,
  Option, none, some, String, List, Bool, arith, Result, ok, err, Bool-cases,
}
use learn_loop.States.{ExamState, transition_exam_state}
use learn_loop.Exam.Model.{
  ProblemType, CorrectAnswer, GradingStatus, status_is, Exam, ExamItem, Grading, in_state,
}
use learn_loop.Exam.Worker.{finalize_found, Db, persist_item_result, finalize_exam}
use learn_loop.Exam.Handlers.{get_owned_exam, ApiError, save_answer, discard_exam, find_item}
use learn_loop.Exam.Grading.{grade_item, Reply, GradeError}
use learn_loop.Exam.Submit.{
  grade_all, submit_owned, exam_requires_vlm_grading, submit_synchronous, submit_transaction,
  submit_asynchronous, freeze, submit_exam, submit_graded,
}
use learn_loop.Exam.Review.{report_item, report_owned, self_report, report_transaction}

-- The exam is kept in its state, or moved by a transition of the table; none appears or vanishes.
abbrev pub IsLegalStep : Option Exam → Option Exam → Type 0
IsLegalStep none none = Unit
IsLegalStep none (some e) = ⊥
IsLegalStep (some e) none = ⊥
IsLegalStep (some e) (some t) =
    (t.state ≡ e.state) ⊎ (transition_exam_state e.state t.state ≡ ok t.state)

-- Whatever the handler had read before.
save-IsLegalStep :
    (user_id now : ℕ) (id answer : String) (seen current : Option Exam)
    → IsLegalStep current (save_answer user_id id answer now seen current).1
unfolding save_answer transition_exam_state
save-IsLegalStep user_id now id answer none none = tt
save-IsLegalStep user_id now id answer none (some e) = inl refl
save-IsLegalStep user_id now id answer (some s) none = ground arith
save-IsLegalStep user_id now id answer (some s) (some e) = ground arith

persist-IsLegalStep :
    (id : String) (g : Grading) (now : ℕ) (seen current : Option Exam)
    → IsLegalStep current (persist_item_result id g now seen current).0
unfolding persist_item_result transition_exam_state
persist-IsLegalStep id g now none none = tt
persist-IsLegalStep id g now none (some e) = inl refl
persist-IsLegalStep id g now (some s) none = ground arith
persist-IsLegalStep id g now (some s) (some e) = ground arith

discard-IsLegalStep :
    (user_id now : ℕ) (current : Option Exam)
    → IsLegalStep current (discard_exam user_id now current current).1
unfolding discard_exam transition_exam_state
discard-IsLegalStep user_id now none = tt
discard-IsLegalStep user_id now (some e) = ground arith

freeze-IsLegalStep :
    (id exam_id user_id now : ℕ) (o : Option Exam) (db : Db)
    → db.exams exam_id ≡ o
    → IsLegalStep o ((freeze id exam_id user_id now o db).1.exams exam_id)
unfolding transition_exam_state
freeze-IsLegalStep id exam_id user_id now none db h = rw h tt
freeze-IsLegalStep id exam_id user_id now (some e) db h = ground arith

submit-IsLegalStep :
    (seen graded : List ExamItem) (exam_id user_id now : ℕ) (o : Option Exam) (db : Db)
    → db.exams exam_id ≡ o
    → IsLegalStep o ((submit_transaction seen graded exam_id user_id now o db).1.exams exam_id)
unfolding transition_exam_state
submit-IsLegalStep seen graded exam_id user_id now none db h = rw h tt
submit-IsLegalStep seen graded exam_id user_id now (some e) db h = ground arith

report-IsLegalStep :
    (i : ExamItem) (items : List ExamItem) (right : Bool) (exam_id user_id now : ℕ)
    (o : Option Exam) (db : Db)
    → db.exams exam_id ≡ o
    → IsLegalStep o ((report_transaction i items right exam_id user_id now o db).1.exams exam_id)
unfolding transition_exam_state
report-IsLegalStep i items right exam_id user_id now none db h = rw h tt
report-IsLegalStep i items right exam_id user_id now (some e) db h = ground arith

found-IsLegalStep :
    (exam_id user_id task_id now : ℕ) (token : String) (o : Option Exam) (db : Db)
    → db.exams exam_id ≡ o
    → IsLegalStep o ((finalize_found o exam_id user_id task_id token now db).0.exams exam_id)
unfolding transition_exam_state
found-IsLegalStep exam_id user_id task_id now token none db h = rw h tt
found-IsLegalStep exam_id user_id task_id now token (some e) db h = ground arith

stay : (o p : Option Exam) → p ≡ o → IsLegalStep o p
stay none p h = rw h tt
stay (some e) p h = rw h (inl refl)

item-IsLegalStep :
    (r : Result ApiError ExamItem) (e : Exam) (id : String) (right : Bool) (exam_id user_id now : ℕ)
    (db : Db)
    → IsLegalStep
        (db.exams exam_id)
        ((report_item r e id right exam_id user_id now db).1.exams exam_id)
item-IsLegalStep (err x) e id right exam_id user_id now db = stay _ _ refl
item-IsLegalStep (ok i) e id right exam_id user_id now db =
    elim (Bool-cases (status_is GradingStatus.pending_review i.grading)) [
      | inl p ↦ rw p (report-IsLegalStep i _ right exam_id user_id now (db.exams exam_id) db refl)
      | inr n ↦ rw n (stay _ _ refl)
    ]

owned-IsLegalStep :
    (r : Result ApiError Exam) (id : String) (right : Bool) (exam_id user_id now : ℕ) (db : Db)
    → IsLegalStep
        (db.exams exam_id)
        ((report_owned r id right exam_id user_id now db).1.exams exam_id)
owned-IsLegalStep (err x) id right exam_id user_id now db = stay _ _ refl
owned-IsLegalStep (ok e) id right exam_id user_id now db =
    elim (Bool-cases (in_state ExamState.submitted e)) [
      | inl p ↦ rw p (item-IsLegalStep (find_item e id) e id right exam_id user_id now db)
      | inr n ↦ rw n (stay _ _ refl)
    ]

graded-IsLegalStep :
    (r : Result GradeError (List ExamItem)) (seen : List ExamItem) (exam_id user_id now : ℕ)
    (db : Db)
    → IsLegalStep (db.exams exam_id) ((submit_graded r seen exam_id user_id now db).1.exams exam_id)
graded-IsLegalStep (err e) seen exam_id user_id now db = stay _ _ refl
graded-IsLegalStep (ok graded) seen exam_id user_id now db =
    submit-IsLegalStep seen graded exam_id user_id now (db.exams exam_id) db refl

either_way : {A : Type 0} (P : A → Type 0) (b : Bool) (x y : A) → P x → P y → P (if b then x else y)
either_way P true x y p q = p
either_way P false x y p q = q

module _ (is_equivalent : ProblemType → String → CorrectAnswer → Bool)
    (image : ExamItem → Result GradeError (Unit {0})) (replies : ExamItem → ℕ → Reply) where
  owner-IsLegalStep :
      (r : Result ApiError Exam) (id exam_id user_id now : ℕ) (db : Db)
      → IsLegalStep
          (db.exams exam_id)
          ((submit_owned is_equivalent image replies r id exam_id user_id now db).1.exams exam_id)
  unfolding submit_owned submit_synchronous submit_asynchronous
  owner-IsLegalStep (err x) id exam_id user_id now db = stay _ _ refl
  owner-IsLegalStep (ok e) id exam_id user_id now db =
      let legal : Result ApiError (Unit {0}) × Db → Type 0 =
        λ r. IsLegalStep (db.exams exam_id) (r.1.exams exam_id) in
      either_way legal (in_state ExamState.grading e || in_state ExamState.submitted e) _ _
        (stay _ _ refl)
        (either_way legal (not (in_state ExamState.in_progress e)) _ _ (stay _ _ refl) (
          either_way legal (exam_requires_vlm_grading e.items) _ _
            (freeze-IsLegalStep id exam_id user_id now (db.exams exam_id) db refl)
            (graded-IsLegalStep
              (grade_all (λ i. grade_item is_equivalent i (image i) (replies i) now) e.items)
              e.items exam_id user_id now db)))

-- Every write of the handlers and of the worker keeps the state of the exam that it finds, or moves
-- it by a transition of the table, whatever exam it had read before and whatever others had done
-- since. Of a discard this is stated where nobody wrote between its read and its write.
pub writes_are_legal :
    (user_id exam_id task_id now fresh : ℕ) (id answer token : String) (g : Grading) (right : Bool)
    (is_equivalent : ProblemType → String → CorrectAnswer → Bool)
    (image : ExamItem → Result GradeError (Unit {0})) (replies : ExamItem → ℕ → Reply)
    (seen : Option Exam) (db : Db)
    → let current = db.exams exam_id in
      IsLegalStep current (save_answer user_id id answer now seen current).1
      × IsLegalStep current (persist_item_result id g now seen current).0
      × IsLegalStep current (discard_exam user_id now current current).1
      × IsLegalStep current (
          (submit_exam is_equivalent image replies fresh exam_id user_id now seen db).1.exams
            exam_id)
      × IsLegalStep current ((self_report id right exam_id user_id now seen db).1.exams exam_id)
      × IsLegalStep current ((finalize_exam exam_id user_id task_id token now db).0.exams exam_id)
unfolding submit_exam self_report finalize_exam
writes_are_legal user_id exam_id task_id now fresh id answer token g right is_equivalent image
      replies seen db =
    (
      save-IsLegalStep user_id now id answer seen (db.exams exam_id),
      persist-IsLegalStep id g now seen (db.exams exam_id),
      discard-IsLegalStep user_id now (db.exams exam_id),
      owner-IsLegalStep is_equivalent image replies (get_owned_exam seen user_id) fresh exam_id
          user_id now db,
      owned-IsLegalStep (get_owned_exam seen user_id) id right exam_id user_id now db,
      found-IsLegalStep exam_id user_id task_id now token (db.exams exam_id) db refl,
    )
