-- ===== src/Exam/Blocked.antt =====
-- An error of the provider with a text keeps an exam in grading.
use learn_loop.Prelude.{
  ℕ, suc, ◌≡◌, refl, Option, none, some, String, List, [], ◌∷◌, Bool, true, false, arith, all,
  Result, ok, Option-cases, inl, inr,
}
use learn_loop.States.{ExamState}
use learn_loop.Exam.Model.{
  Exam, ExamItem, Grading, GradingStatus, CorrectAnswer, ProblemType, short_answer, plain_text,
  in_state,
}
use learn_loop.Exam.Scoring.{is_valid_item, is_valid_grading}
use learn_loop.Exam.Grading.{Reply, GradeError, grade_item, grade_loop, result_of}
use learn_loop.Exam.Tasks.{Task, Tasks, pending, find_task, verify_ownership, release_task}
use learn_loop.Exam.Leases.{find-set_self}
use learn_loop.Exam.Worker.{
  Db, has_item, set_grading, grading_or_pending, process_task, turn, raise, raised,
}
use learn_loop.Exam.Progress.{next_open, next-has_item}
use learn_loop.Exam.Valid.{persist-raises}

-- The grading that is not stored.
abbrev unparsed : String → String → ℕ → Grading
unparsed message content now = record (result_of GradingStatus.pending_review "vlm" now) {
  feedback = some message;
  raw_provider_response = some (plain_text content);
}

set_grading-invalid :
    (id : String) (g : Grading) (items : List ExamItem)
    → has_item id items ≡ true
    → is_valid_grading g ≡ false
    → all is_valid_item (set_grading id g items) ≡ false
unfolding set_grading
set_grading-invalid id g [] h v = ground arith
set_grading-invalid id g (i ∷ items) h v =
    ground (arith, h, v, λ (t : has_item id items ≡ true). set_grading-invalid id g items t v)

abbrev pub IsPending : Option Task → Type 0
IsPending none = ⊥
IsPending (some t) = (t.status ≡ pending) × (t.claim_token ≡ none)

release-IsPending :
    (id now : ℕ) (token : String) (ts : Tasks)
    → verify_ownership id token ts ≡ true
    → IsPending (find_task id (release_task id token now ts).0)
unfolding verify_ownership release_task
release-IsPending id now token ts h = elim (Option-cases (find_task id ts)) [
  | inl e ↦ absurd (ground arith)
  | inr (t, e) ↦ rw h (rw (find-set_self id _ ts t e) (refl, refl))
]

graded-unparsed :
    (is_equivalent : ProblemType → String → CorrectAnswer → Bool) (i : ExamItem)
    (image : Result GradeError (Unit {0})) (replies : ℕ → Reply) (answer message content : String)
    (now : ℕ)
    → i.answer_raw ≡ some answer
    → i.snapshot.problem_type ≡ short_answer
    → image ≡ ok tt
    → replies 0 ≡ Reply.vlm_error false message (some (plain_text content))
    → grading_or_pending now (grade_item is_equivalent i image replies now)
      ≡ unparsed message content now
unfolding grade_item grade_loop
graded-unparsed is_equivalent i image replies answer message content now a t l r =
    rw (l, t, a, grade_loop, r) refl

module _ (grade : ExamItem → ℕ → Result GradeError ExamItem) (exam_id user_id task_id : ℕ)
    (token : String) where
  turn-raise :
      (now : ℕ) (db : Db) (e : Exam) (i : ExamItem)
      → db.exams exam_id ≡ some e
      → in_state ExamState.grading e ≡ true
      → verify_ownership task_id token db.tasks ≡ true
      → next_open e.items ≡ some i
      → is_valid_grading (grading_or_pending now (grade i now)) ≡ false
      → turn grade exam_id user_id task_id token now db ≡ raise db
  unfolding turn
  turn-raise now db e i h g o n v =
      let has : has_item i.item_id e.items ≡ true = next-has_item e.items i n in
      rw
        (
          o,
          h,
          n,
          persist-raises i.item_id (grading_or_pending now (grade i now)) now e g has
              (set_grading-invalid i.item_id (grading_or_pending now (grade i now)) e.items has v),
        )
        (ground arith)

  process-raise :
      (fuel : ℕ) (clock : ℕ → ℕ) (db : Db)
      → turn grade exam_id user_id task_id token (clock fuel) db ≡ raise db
      → process_task grade exam_id user_id task_id token (suc fuel) clock db ≡ some (raised db)
  unfolding process_task
  process-raise fuel clock db h = rw (h, process_task) refl

module _ (is_equivalent : ProblemType → String → CorrectAnswer → Bool)
    (image : ExamItem → Result GradeError (Unit {0})) (replies : ExamItem → ℕ → Reply) where
  -- Where the next item of an exam in grading is an answered short answer, whose image loads and to
  -- which the provider replies an error that is not retried and has a text that is no JSON object,
  -- the run of a worker that owns the task raises and changes nothing, and the release that follows
  -- makes the task pending again: the exam stays in grading, whatever its other items are.
  pub unparsed_reply_blocks :
      (exam_id user_id task_id fuel now : ℕ) (token : String) (clock : ℕ → ℕ) (db : Db) (e : Exam)
      (i : ExamItem) (answer message content : String)
      → db.exams exam_id ≡ some e
      → in_state ExamState.grading e ≡ true
      → verify_ownership task_id token db.tasks ≡ true
      → next_open e.items ≡ some i
      → i.answer_raw ≡ some answer
      → i.snapshot.problem_type ≡ short_answer
      → image i ≡ ok tt
      → replies i 0 ≡ Reply.vlm_error false message (some (plain_text content))
      → (process_task
            (λ i now. grade_item is_equivalent i (image i) (replies i) now)
            exam_id
            user_id
            task_id
            token
            (suc fuel)
            clock
            db
          ≡ some (raised db))
        × IsPending (find_task task_id (release_task task_id token now db.tasks).0)
  unparsed_reply_blocks exam_id user_id task_id fuel now token clock db e i answer message content h
        g o n a t l r =
      (
        process-raise (λ j at. grade_item is_equivalent j (image j) (replies j) at) exam_id user_id
            task_id token fuel clock db
            (turn-raise (λ j at. grade_item is_equivalent j (image j) (replies j) at) exam_id
              user_id task_id token (clock fuel) db e i h g o n
              (rw
                (graded-unparsed is_equivalent i (image i) (replies i) answer message content
                  (clock fuel) a t l r)
                refl)),
        release-IsPending task_id now token db.tasks o,
      )
