-- ===== src/Solutions/Uniqueness.antt =====
-- Each problem has at most one task, and after a backfill every problem has a task or a solution.
use learn_loop.Prelude.{
  ℕ, zero, suc, ◌≤◌, ◌≡◌, refl, sym, ap, ==-eq, ==-refl, List, [], ◌∷◌, ◌++◌, Bool, true, false,
  ◌&&◌, ◌||◌, not, arith, any, length, ◌==◌, Bool-cases, inl, inr,
}
use learn_loop.Solutions.Tasks.{SolutionTask, Store, has_task, has_solution}
use learn_loop.Solutions.Queue.{
  ProblemRow, build_task, enqueue, missing, take, drop, step_of, insert_batches, backfill,
}

-- No problem has two tasks.
abbrev pub OneTaskEach : List SolutionTask → Type 0
OneTaskEach [] = Unit
OneTaskEach (t ∷ ts) = (has_task t.problem_id ts ≡ false) × OneTaskEach ts

pub has_task-append :
    (p : ℕ) (ts us : List SolutionTask) → has_task p (ts ++ us) ≡ (has_task p ts || has_task p us)
has_task-append p [] us = refl
has_task-append p (t ∷ ts) us = ground (arith, has_task-append p ts us)

append_nil : (ts : List SolutionTask) → ts ++ [] ≡ ts
append_nil [] = refl
append_nil (t ∷ ts) = rw (append_nil ts) refl

append_assoc : (ts us vs : List SolutionTask) → (ts ++ us) ++ vs ≡ ts ++ (us ++ vs)
append_assoc [] us vs = refl
append_assoc (t ∷ ts) us vs = rw (append_assoc ts us vs) refl

take-drop : (n : ℕ) (docs : List SolutionTask) → take n docs ++ drop n docs ≡ docs
unfolding take drop
take-drop zero docs = refl
take-drop (suc n) [] = refl
take-drop (suc n) (d ∷ docs) = rw (take-drop n docs) refl

drop-le : (n : ℕ) (docs : List SolutionTask) → length (drop n docs) ≤ length docs
unfolding drop
drop-le zero docs = omega arith
drop-le (suc n) [] = omega arith
drop-le (suc n) (d ∷ docs) = omega (arith, drop-le n docs)

drop-lt :
    (size : ℕ) (d : SolutionTask) (docs : List SolutionTask)
    → length (drop (step_of size) (d ∷ docs)) ≤ length docs
unfolding drop
drop-lt zero d docs = omega arith
drop-lt (suc n) d docs = drop-le n docs

-- Whatever the batch size, the batches are the documents, in order.
insert_batches-eq :
    (fuel size : ℕ) (docs tasks : List SolutionTask)
    → length docs ≤ fuel
    → insert_batches fuel size docs tasks ≡ tasks ++ docs
unfolding insert_batches
insert_batches-eq fuel size [] tasks h = sym (append_nil tasks)
insert_batches-eq zero size (d ∷ docs) tasks h = absurd (omega arith)
insert_batches-eq (suc fuel) size (d ∷ docs) tasks h =
    rw
      (insert_batches-eq fuel size (drop (step_of size) (d ∷ docs))
        (tasks ++ take (step_of size) (d ∷ docs)) (omega (arith, drop-lt size d docs)))
      (rw append_assoc (rw take-drop refl))

-- The problem has a task or a solution.
abbrev pub is_served : ℕ → Store → Bool
is_served p s = has_task p s.tasks || has_solution p s.solutions

-- The problems' ids differ.
abbrev pub has_row : ℕ → List ProblemRow → Bool
has_row p rows = any (λ (r : ProblemRow). r.id == p) rows

abbrev pub DistinctRows : List ProblemRow → Type 0
DistinctRows [] = Unit
DistinctRows (r ∷ rows) = (has_row r.id rows ≡ false) × DistinctRows rows

missing-has_row :
    (ids : ℕ → ℕ) (now : ℕ) (s : Store) (rows : List ProblemRow) (p : ℕ)
    → has_row p rows ≡ false
    → has_task p (missing ids now s rows) ≡ false
unfolding missing
missing-has_row ids now s [] p h = refl
missing-has_row ids now s (r ∷ rows) p h = ground (arith, missing-has_row ids now s rows p)

missing-OneTaskEach :
    (ids : ℕ → ℕ) (now : ℕ) (s : Store) (rows : List ProblemRow)
    → DistinctRows rows
    → OneTaskEach (missing ids now s rows)
unfolding missing
missing-OneTaskEach ids now s [] d = tt
missing-OneTaskEach ids now s (r ∷ rows) d =
    ground (arith, missing-has_row ids now s rows r.id d.0, missing-OneTaskEach ids now s rows d.1)

missing-new :
    (ids : ℕ → ℕ) (now : ℕ) (s : Store) (rows : List ProblemRow) (p : ℕ)
    → has_task p s.tasks ≡ true
    → has_task p (missing ids now s rows) ≡ false
unfolding missing
missing-new ids now s [] p h = refl
missing-new ids now s (r ∷ rows) p h = elim (Bool-cases (r.id == p)) [
  | inl e ↦
      let served : has_task r.id s.tasks ≡ true = rw (==-eq r.id p e) h in
      rw served (ground (arith, missing-new ids now s rows p h))
  | inr n ↦ ground (arith, missing-new ids now s rows p h)
]

-- The problem is among the rows, not deleted.
abbrev pub is_live_row : ℕ → List ProblemRow → Bool
is_live_row p rows = any (λ (r : ProblemRow). r.id == p && not r.is_deleted) rows

missing-covers :
    (ids : ℕ → ℕ) (now : ℕ) (s : Store) (rows : List ProblemRow) (p : ℕ)
    → is_live_row p rows ≡ true
    → (is_served p s || has_task p (missing ids now s rows)) ≡ true
unfolding missing build_task
missing-covers ids now s [] p h = absurd (ground arith)
missing-covers ids now s (r ∷ rows) p h = elim (Bool-cases (r.id == p)) [
  | inl e ↦
      let same = ==-eq r.id p e in
      ground (
        arith,
        ap (λ q. has_task q s.tasks) same,
        ap (λ q. has_solution q s.solutions) same,
        missing-covers ids now s rows p,
      )
  | inr n ↦ ground (arith, missing-covers ids now s rows p)
]

nothing-missing :
    (ids : ℕ → ℕ) (now : ℕ) (s : Store) (rows : List ProblemRow)
    → ((p : ℕ) → is_live_row p rows ≡ true → is_served p s ≡ true)
    → missing ids now s rows ≡ []
unfolding missing
nothing-missing ids now s [] h = refl
nothing-missing ids now s (r ∷ rows) h =
    ground (arith, h r.id, nothing-missing ids now s rows (λ p l. h p (ground arith)))

append-OneTaskEach :
    (ts us : List SolutionTask)
    → OneTaskEach ts
    → OneTaskEach us
    → ((p : ℕ) → has_task p ts ≡ true → has_task p us ≡ false)
    → OneTaskEach (ts ++ us)
append-OneTaskEach [] us o w d = w
append-OneTaskEach (t ∷ ts) us o w d = (
  ground (arith, o.0, has_task-append t.problem_id ts us, d t.problem_id),
  append-OneTaskEach ts us o.1 w (λ p h. d p (ground arith)),
)

backfill-eq :
    (ids : ℕ → ℕ) (size now : ℕ) (rows : List ProblemRow) (s : Store)
    → backfill ids size now rows s
      ≡ (length (missing ids now s rows), record s { tasks = s.tasks ++ missing ids now s rows })
unfolding backfill
backfill-eq ids size now rows s =
    rw
      (insert_batches-eq (length (missing ids now s rows)) size (missing ids now s rows) s.tasks
        (omega arith))
      refl

backfill-serves :
    (ids : ℕ → ℕ) (now : ℕ) (rows : List ProblemRow) (s : Store) (p : ℕ)
    → is_live_row p rows ≡ true
    → is_served p (record s { tasks = s.tasks ++ missing ids now s rows }) ≡ true
backfill-serves ids now rows s p h =
    ground
      (arith, missing-covers ids now s rows p h, has_task-append p s.tasks (missing ids now s rows))

-- A backfill, with any batch size, keeps that no problem has two tasks, leaves every problem that
-- is not deleted with a task or a solution, and so a second one, at any time, creates nothing. The
-- ids of the problems are assumed to differ.
pub backfill_lem :
    (ids ids' : ℕ → ℕ) (size size' now later : ℕ) (rows : List ProblemRow) (s : Store)
    → DistinctRows rows
    → OneTaskEach s.tasks
    → let s' = (backfill ids size now rows s).1 in
      OneTaskEach s'.tasks
      × ((p : ℕ) → is_live_row p rows ≡ true → is_served p s' ≡ true)
      × (backfill ids' size' later rows s' ≡ (0, s'))
backfill_lem ids ids' size size' now later rows s d o = rw (backfill-eq ids size now rows s) (
  append-OneTaskEach s.tasks (missing ids now s rows) o (missing-OneTaskEach ids now s rows d)
      (missing-new ids now s rows),
  backfill-serves ids now rows s,
  rw (backfill-eq ids' size' later rows (record s { tasks = s.tasks ++ missing ids now s rows })) (
      rw
        (nothing-missing ids' later (record s { tasks = s.tasks ++ missing ids now s rows }) rows
          (backfill-serves ids now rows s))
        (rw append_nil refl)),
)

-- A problem without a task gets one.
pub appended-OneTaskEach :
    (t : SolutionTask) (ts : List SolutionTask)
    → OneTaskEach ts
    → has_task t.problem_id ts ≡ false
    → OneTaskEach (ts ++ (t ∷ []))
appended-OneTaskEach t ts o n =
    append-OneTaskEach ts (t ∷ []) o (refl, tt)
      (λ q h. elim (Bool-cases (t.problem_id == q)) [
        | inl e ↦ absurd (ground (arith, ap (λ q. has_task q ts) (==-eq t.problem_id q e)))
        | inr d ↦ rw d refl
      ])

-- Enqueueing leaves the problem with a task or a solution and no problem with two tasks, creates a
-- task exactly when the problem had neither, and so a second call creates nothing.
pub enqueue_lem :
    (id id' p user_id now later : ℕ) (s : Store)
    → OneTaskEach s.tasks
    → let (created, s') = enqueue id p user_id now s in
      OneTaskEach s'.tasks
      × (is_served p s' ≡ true)
      × (created ≡ not (is_served p s))
      × (enqueue id' p user_id later s' ≡ (false, s'))
unfolding enqueue build_task
enqueue_lem id id' p user_id now later s o = elim (Bool-cases (is_served p s)) [
  | inl e ↦ rw e (o, e, refl, rw e refl)
  | inr n ↦
      let added = build_task id p user_id now in
      let served : is_served p (record s { tasks = s.tasks ++ (added ∷ []) }) ≡ true =
        ground (arith, has_task-append p s.tasks (added ∷ []), ==-refl p) in
      rw n (appended-OneTaskEach added s.tasks o (ground arith), served, refl, rw served refl)
]
