-- ===== src/Exam/Races.antt =====
-- What the handlers lose where another write falls between their read and their write.
use learn_loop.Prelude.{
  ℕ, ◌≡◌, refl, inl, inr, Option, some, String, List, Bool, true, false, arith, [], ◌∷◌, ok, err,
  Bool-cases, count_if, all, find_first, str_eq, eq_iff, ◌==◌,
}
use learn_loop.States.{ExamState, transition_exam_state, invalid_transition}
use learn_loop.Exam.Model.{Exam, ExamItem, GradingStatus, is_terminal, in_state, status_is}
use learn_loop.Exam.Worker.{
  track_problem, set_grading, Db, put, finalize_exam, Problem, submitted_exam,
}
use learn_loop.Exam.Scoring.{compute_summary}
use learn_loop.Exam.Grading.{build_tracking_update}
use learn_loop.Exam.Finalize.{finalize-eq}
use learn_loop.Exam.TrackingLaws.{Tracked, counts_for, right_for, wrong_for, track_items-Tracked}
use learn_loop.Exam.Handlers.{set_answer, save_answer, discard_exam, find_item, discarded_exam}
use learn_loop.Exam.Review.{self_reported, self_report}

-- A discard that read the exam in grading and writes after the worker has finalized it succeeds:
-- the submitted exam becomes discarded, a move that the table forbids, and it keeps its submission
-- time, while each problem of its user was tracked for every reviewed item of it. (A discard writes no
-- problem.)
pub discard_overwrites_submission :
    (exam_id user_id task_id now later k : ℕ) (token : String) (db : Db) (e : Exam) (q : Problem)
    → db.exams exam_id ≡ some e
    → e.user_id ≡ user_id
    → db.problems k ≡ some q
    → q.user_id ≡ user_id
    → in_state ExamState.grading e ≡ true
    → all (λ (i : ExamItem). is_terminal i.grading) e.items ≡ true
    → let db' = (finalize_exam exam_id user_id task_id token now db).0 in
      let (answer, exam) = discard_exam user_id later (some e) (db'.exams exam_id) in
      (db'.exams exam_id ≡ some (submitted_exam now e))
      × (answer ≡ ok tt)
      × (exam ≡ some (discarded_exam later (submitted_exam now e)))
      × (transition_exam_state ExamState.submitted ExamState.discarded ≡ err invalid_transition)
      × Tracked q
          (count_if (counts_for k) e.items)
          (count_if (right_for k) e.items)
          (count_if (wrong_for k) e.items)
          (db'.problems k)
unfolding discard_exam transition_exam_state
discard_overwrites_submission exam_id user_id task_id now later k token db e q h u p own g t =
    rw (finalize-eq exam_id user_id task_id now token db e h g t) (
      ground arith,
      ground arith,
      ground arith,
      refl,
      track_items-Tracked user_id now k e.items db.problems q p own,
    )

-- What a report writes that passes all its tests.
abbrev reported : ExamItem → List ExamItem → Exam → Bool → ℕ → ℕ → ℕ → Db → Db
reported i items current right exam_id user_id now db = record db {
  exams =
      put exam_id
        (record current { items = items; summary = compute_summary items; updated_at = now })
        db.exams;
  problems = track_problem user_id i.problem_id now right db.problems;
}

report-eq :
    (id : String) (right : Bool) (exam_id user_id now : ℕ) (db : Db) (e current : Exam)
    (i : ExamItem)
    → e.user_id ≡ user_id
    → in_state ExamState.submitted e ≡ true
    → find_item e id ≡ ok i
    → status_is GradingStatus.pending_review i.grading ≡ true
    → db.exams exam_id ≡ some current
    → current.user_id ≡ user_id
    → in_state ExamState.submitted current ≡ true
    → self_report id right exam_id user_id now (some e) db ≡ (
      ok tt,
      reported i
          (set_grading id (self_reported right now i.grading) e.items)
          current
          right
          exam_id
          user_id
          now
          db,
    )
unfolding self_report
report-eq id right exam_id user_id now db e current i u g f p h c k =
    let own : e.user_id == user_id ≡ true = ground arith in rw (own, g, f, p, h) (ground arith)

-- Two self-reports of one item that both read the exam before either writes both succeed, and the
-- problem is credited with two answers for the one item.
pub self_report_counts_twice :
    (id : String) (right right' : Bool) (exam_id user_id now later : ℕ) (db : Db) (e : Exam)
    (i : ExamItem) (q : Problem)
    → db.exams exam_id ≡ some e
    → e.user_id ≡ user_id
    → in_state ExamState.submitted e ≡ true
    → find_item e id ≡ ok i
    → status_is GradingStatus.pending_review i.grading ≡ true
    → db.problems i.problem_id ≡ some q
    → q.user_id ≡ user_id
    → let (first, db') = self_report id right exam_id user_id now (some e) db in
      let (second, db'') = self_report id right' exam_id user_id later (some e) db' in
      (first ≡ ok tt)
      × (second ≡ ok tt)
      × (db''.problems i.problem_id
          ≡ some (record q {
            tracking =
                build_tracking_update (build_tracking_update q.tracking now right) later right';
            updated_at = later;
          }))
unfolding track_problem
self_report_counts_twice id right right' exam_id user_id now later db e i q h u g f p m w =
    rw (report-eq id right exam_id user_id now db e e i u g f p h u g) (
      rw
        (report-eq id right' exam_id user_id later
          (reported i (set_grading id (self_reported right now i.grading) e.items) e right exam_id
            user_id now db)
          e
          (record e {
            items = set_grading id (self_reported right now i.grading) e.items;
            summary = compute_summary (set_grading id (self_reported right now i.grading) e.items);
            updated_at = now;
          })
          i u g f p (ground arith) u g)
        (refl, refl, ground arith))

-- The answer that an exam holds for an item.
abbrev pub answer_of : String → List ExamItem → Option ExamItem
answer_of id items = find_first (λ (i : ExamItem). str_eq i.item_id id) items

apart : (id id' x : String) → str_eq id id' ≡ false → str_eq x id' ≡ true → str_eq x id ≡ false
apart id id' x ne y =
    let x-id' = (eq_iff x id').0 y in
    elim (Bool-cases (str_eq x id)) [
      | inl t ↦
          let same : id ≡ id' = cc ((eq_iff x id).0 t, x-id') in
          ground (arith, (eq_iff id id').1 same, ne)
      | inr f ↦ f
    ]

-- Setting one item's answer leaves what is found under another id.
answer_of-set_answer :
    (id id' answer : String) (items : List ExamItem)
    → str_eq id id' ≡ false
    → answer_of id (set_answer id' answer items) ≡ answer_of id items
unfolding set_answer
answer_of-set_answer id id' answer [] ne = refl
answer_of-set_answer id id' answer (i ∷ items) ne =
    let tail = answer_of-set_answer id id' answer items ne in
    elim (Bool-cases (str_eq i.item_id id')) [
      | inl y ↦ rw (y, apart id id' i.item_id ne y) refl
      | inr n ↦ rw n (ground (arith, tail))
    ]

save-eq :
    (user_id : ℕ) (id answer : String) (now : ℕ) (e current : Exam) (i : ExamItem)
    → e.user_id ≡ user_id
    → in_state ExamState.in_progress e ≡ true
    → find_item e id ≡ ok i
    → in_state ExamState.in_progress current ≡ true
    → save_answer user_id id answer now (some e) (some current) ≡ (
      ok tt,
      some (record current {
        items = set_answer id answer e.items;
        summary = compute_summary (set_answer id answer e.items);
        updated_at = now;
      }),
    )
unfolding save_answer
save-eq user_id id answer now e current i u g f c =
    let own : e.user_id == user_id ≡ true = ground arith in rw (own, g, f, c) refl

-- Two saves of different items that both read the exam before either writes both succeed, and the
-- second one restores what the first one's item held when it was read: the first answer is lost.
pub save_answer_lost :
    (id id' answer answer' : String) (user_id now later : ℕ) (e : Exam) (i j : ExamItem)
    → str_eq id id' ≡ false
    → e.user_id ≡ user_id
    → in_state ExamState.in_progress e ≡ true
    → find_item e id ≡ ok i
    → find_item e id' ≡ ok j
    → let (first, exam) = save_answer user_id id answer now (some e) (some e) in
      let (second, exam') = save_answer user_id id' answer' later (some e) exam in
      (first ≡ ok tt)
      × (second ≡ ok tt)
      × (exam'
          ≡ some (record e {
            items = set_answer id' answer' e.items;
            summary = compute_summary (set_answer id' answer' e.items);
            updated_at = later;
          }))
      × (answer_of id (set_answer id' answer' e.items) ≡ answer_of id e.items)
save_answer_lost id id' answer answer' user_id now later e i j ne u g f f' =
    rw (save-eq user_id id answer now e e i u g f g) (
      rw
        (save-eq user_id id' answer' later e
          (record e {
            items = set_answer id answer e.items;
            summary = compute_summary (set_answer id answer e.items);
            updated_at = now;
          })
          j u g f' g)
        (refl, refl, refl, answer_of-set_answer id id' answer' e.items ne))
