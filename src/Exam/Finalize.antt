-- ===== src/Exam/Finalize.antt =====
-- An exam is finalized once.
use learn_loop.Prelude.{ℕ, ◌≡◌, refl, some, String, true, arith, count_if, all}
use learn_loop.States.{ExamState}
use learn_loop.Exam.Model.{Exam, ExamItem, is_terminal, in_state}
use learn_loop.Exam.Worker.{finalized, Problem, Db, finalize_exam, submitted_exam}
use learn_loop.Exam.TrackingLaws.{Tracked, counts_for, right_for, wrong_for, track_items-Tracked}

pub finalize-eq :
    (exam_id user_id task_id now : ℕ) (token : String) (db : Db) (e : Exam)
    → db.exams exam_id ≡ some e
    → in_state ExamState.grading e ≡ true
    → all (λ (i : ExamItem). is_terminal i.grading) e.items ≡ true
    → finalize_exam exam_id user_id task_id token now db
      ≡ (finalized e exam_id user_id task_id token now db, true)
unfolding finalize_exam
finalize-eq exam_id user_id task_id now token db e h g t = rw h (rw t (ground arith))

-- Once every item of an exam in grading is terminal, finalizing it reports success and stores it as
-- submitted with the summary of its items; every problem of its user is credited once for each
-- reviewed item.
pub finalize_lands :
    (exam_id user_id task_id now k : ℕ) (token : String) (db : Db) (e : Exam) (q : Problem)
    → db.exams exam_id ≡ some e
    → in_state ExamState.grading e ≡ true
    → all (λ (i : ExamItem). is_terminal i.grading) e.items ≡ true
    → db.problems k ≡ some q
    → q.user_id ≡ user_id
    → let (db', done) = finalize_exam exam_id user_id task_id token now db in
      (done ≡ true)
      × (db'.exams exam_id ≡ some (submitted_exam now e))
      × Tracked q
          (count_if (counts_for k) e.items)
          (count_if (right_for k) e.items)
          (count_if (wrong_for k) e.items)
          (db'.problems k)
unfolding finalize_exam
finalize_lands exam_id user_id task_id now k token db e q h g t p u =
    rw (finalize-eq exam_id user_id task_id now token db e h g t)
      (refl, ground arith, track_items-Tracked user_id now k e.items db.problems q p u)

-- After a finalization that reports success, a second one by any worker reports success too and
-- changes no exam and no problem: no answer is counted twice.
pub finalize_once :
    (exam_id user_id task_id now other task' later : ℕ) (token token' : String) (db : Db)
    → (finalize_exam exam_id user_id task_id token now db).1 ≡ true
    → let db' = (finalize_exam exam_id user_id task_id token now db).0 in
      let (db'', done) = finalize_exam exam_id other task' token' later db' in
      (done ≡ true) × (db''.exams ≡ db'.exams) × (db''.problems ≡ db'.problems)
unfolding finalize_exam
finalize_once exam_id user_id task_id now other task' later token token' db h = ground arith
