-- ===== src/Exam/Examples.antt =====
-- The theorems on exams at a concrete exam, task and database.
use learn_loop.Prelude.{
  ◌≡◌, refl, some, none, [], ◌∷◌, true, false, Bool, String, List, ok, err, arith, ℕ, Option,
  Result, count_if,
}
use learn_loop.States.{ExamState, transition_exam_state, invalid_transition}
use learn_loop.Exam.Model.{
  plain_text, Exam, ExamItem, Grading, GradingStatus, ProblemType, CorrectAnswer, ProblemSnapshot,
  ungraded_grading,
}
use learn_loop.Exam.Grading.{
  result_of, verdict_of, Reply, GradeError, grade_item, build_tracking_update,
}
use learn_loop.Exam.Tasks.{
  Task, Tasks, processing, claim_task, verify_ownership, refresh_lease, release_task, complete_task,
  find_task,
}
use learn_loop.Exam.Leases.{reclaim_fences}
use learn_loop.Exam.Worker.{
  Db, Problem, finalize_exam, submitted_exam, process_task, persist_item_result, raised,
}
use learn_loop.Exam.TrackingLaws.{Tracked, counts_for, right_for, wrong_for}
use learn_loop.Exam.Finalize.{finalize_lands, finalize_once}
use learn_loop.Exam.Completion.{Finishes, process_task_completes}
use learn_loop.Exam.Blocked.{IsPending, unparsed_reply_blocks}
use learn_loop.Exam.Handlers.{save_answer, discard_exam, discarded_exam, find_item}
use learn_loop.Exam.Submit.{submit_exam, exam_requires_vlm_grading}
use learn_loop.Exam.Submission.{Submits, submit_exam_lem}
use learn_loop.Exam.Review.{self_report}
use learn_loop.Exam.Legal.{IsLegalStep, writes_are_legal}
use learn_loop.Exam.Races.{discard_overwrites_submission, self_report_counts_twice}

abbrev snapshot_of : ProblemType → ProblemSnapshot
snapshot_of t = record {
  text = "What is 2 + 2?";
  problem_type = t;
  correct_answer = record { display = "4"; normalized_text = "4"; normalized_set = [] };
}

abbrev item : String → ProblemType → Option String → Grading → ExamItem
item id t answer grading = record {
  item_id = id;
  problem_id = 5;
  snapshot = snapshot_of t;
  answer_raw = answer;
  grading = grading;
}

abbrev exam : ExamState → List ExamItem → Exam
exam state items = record {
  user_id = 7;
  state = state;
  items = items;
  summary = record {
    total = 2;
    answered = 0;
    graded = 0;
    pending = 0;
    correct = 0;
    failed = 0;
    score = none;
  };
  submitted_at = none;
  discarded_at = none;
  updated_at = 10;
}

-- One short answer that is right, and one choice without an answer.
abbrev fresh_items : List ExamItem
fresh_items =
    item "a" ProblemType.short_answer (some "4") ungraded_grading
    ∷ item "b" ProblemType.single_choice none ungraded_grading
    ∷ []

abbrev graded_items : List ExamItem
graded_items =
    item "a" ProblemType.short_answer (some "4") (verdict_of true "vlm" 11)
    ∷ item "b" ProblemType.single_choice none (verdict_of false "normalized-match" 11)
    ∷ []

abbrev reviewed_items : List ExamItem
reviewed_items =
    item "a" ProblemType.short_answer (some "4") (result_of GradingStatus.pending_review "vlm" 11)
    ∷ []

abbrev algebra : Problem
algebra = record {
  user_id = 7;
  tracking = record {
    exposure_count = 3;
    correct_count = 2;
    failed_count = 1;
    last_tested_at = some 5;
    last_attempt_correct = some true;
  };
  updated_at = 5;
}

abbrev task : Task
task = record {
  exam_id = 1;
  user_id = 7;
  status = processing;
  claim_token = some "old";
  lease_until = some 20;
  created_at = 10;
  updated_at = 10;
}

abbrev tasks : Tasks
tasks = (1, task) ∷ []

abbrev db_with : Exam → Db
db_with e = record { exams = λ _. some e; problems = λ _. some algebra; tasks = tasks }

abbrev graded_db : Db
graded_db = db_with (exam ExamState.grading graded_items)

-- A normalizer that accepts nothing, and a provider that says yes.
abbrev accepts : ProblemType → String → CorrectAnswer → Bool
accepts t raw stored = false

abbrev yes : ℕ → Reply
yes _ = Reply.graded true "right" "model" "{}"

abbrev loads : ExamItem → Result GradeError (Unit {0})
loads i = ok tt

completes_example : Finishes 1 1 (
    process_task
      (λ i now. grade_item accepts i (loads i) yes now)
      1
      7
      1
      "old"
      3
      (λ n. 30)
      (db_with (exam ExamState.grading fresh_items)))
unfolding verify_ownership
completes_example =
    process_task_completes accepts loads (λ i. yes) 1 7 1 3 "old" (λ n. 30)
      (db_with (exam ExamState.grading fresh_items)) (exam ExamState.grading fresh_items) refl refl
      refl (λ i n. refl) refl (refl, (refl, tt)) (omega arith)

-- A reply that is no JSON object.
abbrev refusal : ℕ → Reply
refusal _ = Reply.vlm_error false "not valid JSON" (some (plain_text "I cannot grade this."))

blocked_example :
    (process_task
        (λ i now. grade_item accepts i (loads i) refusal now)
        1
        7
        1
        "old"
        3
        (λ n. 30)
        (db_with (exam ExamState.grading fresh_items))
      ≡ some (raised (db_with (exam ExamState.grading fresh_items))))
    × IsPending (
        find_task 1
          (release_task 1 "old" 40 (db_with (exam ExamState.grading fresh_items)).tasks).0)
unfolding verify_ownership
blocked_example =
    unparsed_reply_blocks accepts loads (λ i. refusal) 1 7 1 2 40 "old" (λ n. 30)
      (db_with (exam ExamState.grading fresh_items)) (exam ExamState.grading fresh_items)
      (item "a" ProblemType.short_answer (some "4") ungraded_grading) "4" "not valid JSON"
      "I cannot grade this." refl refl refl refl refl refl refl refl

finalize_once_example :
    let db' = (finalize_exam 1 7 1 "old" 30 graded_db).0 in
    let (db'', done) = finalize_exam 1 7 1 "new" 40 db' in
    (done ≡ true) × (db''.exams ≡ db'.exams) × (db''.problems ≡ db'.problems)
unfolding finalize_exam
finalize_once_example = finalize_once 1 7 1 30 7 1 40 "old" "new" graded_db refl

finalize_lands_example :
    let (db', done) = finalize_exam 1 7 1 "old" 30 graded_db in
    (done ≡ true)
    × (db'.exams 1 ≡ some (submitted_exam 30 (exam ExamState.grading graded_items)))
    × Tracked algebra
        (count_if (counts_for 5) graded_items)
        (count_if (right_for 5) graded_items)
        (count_if (wrong_for 5) graded_items)
        (db'.problems 5)
finalize_lands_example =
    finalize_lands 1 7 1 30 5 "old" graded_db (exam ExamState.grading graded_items) algebra refl
      refl refl refl refl

reclaim_example :
    let ts' = (claim_task "new" 60 30 tasks).1 in
    (verify_ownership 1 "old" ts' ≡ false)
    × (refresh_lease 1 "old" 60 40 ts' ≡ (ts', false))
    × (release_task 1 "old" 40 ts' ≡ (ts', false))
    × (complete_task 1 "old" 40 ts' ≡ (ts', false))
unfolding claim_task find_task
reclaim_example =
    reclaim_fences "old" "new" 1 60 30 40
      (record task { claim_token = some "new"; lease_until = some 90; updated_at = 30 }) tasks
      (refl, tt) refl refl

legal_example :
    let current = graded_db.exams 1 in
    IsLegalStep current (save_answer 7 "a" "5" 30 current current).1
    × IsLegalStep current (persist_item_result "a" (verdict_of true "vlm" 11) 30 current current).0
    × IsLegalStep current (discard_exam 7 30 current current).1
    × IsLegalStep current
        ((submit_exam accepts loads (λ i. yes) 2 1 7 30 current graded_db).1.exams 1)
    × IsLegalStep current ((self_report "a" true 1 7 30 current graded_db).1.exams 1)
    × IsLegalStep current ((finalize_exam 1 7 1 "old" 30 graded_db).0.exams 1)
legal_example =
    writes_are_legal 7 1 1 30 2 "a" "5" "old" (verdict_of true "vlm" 11) true accepts loads
      (λ i. yes) (graded_db.exams 1) graded_db

abbrev answered_exam : Exam
answered_exam = exam ExamState.in_progress fresh_items

submit_example :
    let (answer, db') =
      submit_exam accepts loads (λ i. yes) 2 1 7 30 (some answered_exam) (db_with answered_exam) in
    (answer ≡ ok tt)
    × Submits accepts loads
        (λ i. yes)
        (exam_requires_vlm_grading fresh_items)
        2
        1
        7
        30
        answered_exam
        (db_with answered_exam)
        db'
    × (submit_exam accepts loads (λ i. yes) 3 1 7 40 (db'.exams 1) db' ≡ (ok tt, db'))
submit_example =
    submit_exam_lem accepts loads (λ i. yes) 2 3 1 7 30 40 answered_exam (db_with answered_exam)
      refl refl refl (refl, (refl, tt))

discard_example :
    let db' = (finalize_exam 1 7 1 "old" 30 graded_db).0 in
    let (answer, after) =
      discard_exam 7 40 (some (exam ExamState.grading graded_items)) (db'.exams 1) in
    (db'.exams 1 ≡ some (submitted_exam 30 (exam ExamState.grading graded_items)))
    × (answer ≡ ok tt)
    × (after ≡ some (discarded_exam 40 (submitted_exam 30 (exam ExamState.grading graded_items))))
    × (transition_exam_state ExamState.submitted ExamState.discarded ≡ err invalid_transition)
    × Tracked algebra
        (count_if (counts_for 5) graded_items)
        (count_if (right_for 5) graded_items)
        (count_if (wrong_for 5) graded_items)
        (db'.problems 5)
discard_example =
    discard_overwrites_submission 1 7 1 30 40 5 "old" graded_db
      (exam ExamState.grading graded_items) algebra refl refl refl refl refl refl

abbrev reviewed_exam : Exam
reviewed_exam = exam ExamState.submitted reviewed_items

self_report_example :
    let (first, db') = self_report "a" true 1 7 30 (some reviewed_exam) (db_with reviewed_exam) in
    let (second, db'') = self_report "a" false 1 7 31 (some reviewed_exam) db' in
    (first ≡ ok tt)
    × (second ≡ ok tt)
    × (db''.problems 5
        ≡ some (record algebra {
          tracking =
              build_tracking_update (build_tracking_update algebra.tracking 30 true) 31 false;
          updated_at = 31;
        }))
unfolding find_item
self_report_example =
    self_report_counts_twice "a" true false 1 7 30 31 (db_with reviewed_exam) reviewed_exam
      (item "a" ProblemType.short_answer (some "4")
        (result_of GradingStatus.pending_review "vlm" 11))
      algebra refl refl refl refl refl refl refl
