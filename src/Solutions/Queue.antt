-- ===== src/Solutions/Queue.antt =====
-- backend/app/solution_generation.py: enqueueing, backfilling and regenerating. A check and the
-- insert after it are one step here: what two interleaved calls do is not modelled.
use learn_loop.Prelude.{
  ℕ, zero, suc, Option, none, some, List, [], ◌∷◌, ◌++◌, Bool, true, false, ◌||◌, ◌==◌,
  if◌then◌else◌, Result, ok, err, length, find_first,
}
use learn_loop.Solutions.Tasks.{
  SolutionTask, Solution, Store, pending, failed, has_status, has_task, has_solution, update_task,
}

unfoldable pub build_task : ℕ → ℕ → ℕ → ℕ → SolutionTask
build_task id problem_id user_id now = record {
  id = id;
  problem_id = problem_id;
  user_id = user_id;
  status = pending;
  retry_count = 0;
  failure_reason = none;
  started_at = none;
  process_after = now;
  created_at = now;
  updated_at = now;
}

-- `id` is the fresh `ObjectId`; the result tells whether a task was created.
unfoldable pub enqueue : ℕ → ℕ → ℕ → ℕ → Store → Bool × Store
unfolding build_task
enqueue id problem_id user_id now s =
    if has_task problem_id s.tasks || has_solution problem_id s.solutions
    then (false, s)
    else (true, record s { tasks = s.tasks ++ (build_task id problem_id user_id now ∷ []) })

-- What the backfill reads of a problem.
pub record ProblemRow : Type 0 where
  pub id : ℕ
  pub user_id : ℕ
  pub is_deleted : Bool

-- The documents that are missing, `ids` naming the fresh `ObjectId` of a problem's task.
unfoldable pub missing : (ℕ → ℕ) → ℕ → Store → List ProblemRow → List SolutionTask
unfolding build_task
missing ids now s [] = []
missing ids now s (p ∷ ps) =
    let rest = missing ids now s ps in
    if p.is_deleted
    then rest
    else if has_task p.id s.tasks || has_solution p.id s.solutions
    then rest
    else build_task (ids p.id) p.id p.user_id now ∷ rest

-- `docs[:n]` and `docs[n:]`
unfoldable pub take : ℕ → List SolutionTask → List SolutionTask
take zero docs = []
take (suc n) [] = []
take (suc n) (d ∷ docs) = d ∷ take n docs

unfoldable pub drop : ℕ → List SolutionTask → List SolutionTask
drop zero docs = docs
drop (suc n) [] = []
drop (suc n) (d ∷ docs) = drop n docs

-- `max(batch_size, 1)`
abbrev pub step_of : ℕ → ℕ
step_of zero = 1
step_of (suc n) = suc n

-- The loop over the batches, each inserted by `insert_many`. As much fuel as documents is enough:
-- `insert_batches-eq`.
unfoldable pub insert_batches : ℕ → ℕ → List SolutionTask → List SolutionTask → List SolutionTask
unfolding take drop
insert_batches fuel size [] tasks = tasks
insert_batches zero size (d ∷ docs) tasks = tasks
insert_batches (suc fuel) size (d ∷ docs) tasks =
    insert_batches fuel size (drop (step_of size) (d ∷ docs))
      (tasks ++ take (step_of size) (d ∷ docs))

unfoldable pub backfill : (ℕ → ℕ) → ℕ → ℕ → List ProblemRow → Store → ℕ × Store
unfolding missing insert_batches
backfill ids size now problems s =
    let docs = missing ids now s problems in
    (length docs, record s { tasks = insert_batches (length docs) size docs s.tasks })

abbrev pub reset : ℕ → SolutionTask → SolutionTask
reset now t = record t {
  status = pending;
  retry_count = 0;
  failure_reason = none;
  started_at = none;
  process_after = now;
  updated_at = now;
}

-- `SolutionRegenerationConflict`, by its message.
pub data Conflict : Type 0 where
  in_progress nothing_to_regenerate : Conflict

-- `delete_one`: the first solution of the problem.
unfoldable pub delete_solution : ℕ → List Solution → List Solution
delete_solution p [] = []
delete_solution p (x ∷ xs) = if x.problem_id == p then xs else x ∷ delete_solution p xs

abbrev pub first_task : ℕ → List SolutionTask → Option SolutionTask
first_task p tasks = find_first (λ (t : SolutionTask). t.problem_id == p) tasks

abbrev regenerate_ready : ℕ → ℕ → ℕ → ℕ → Option SolutionTask → Store → Store
regenerate_ready id problem_id user_id now none s = record s {
  solutions = delete_solution problem_id s.solutions;
  tasks = s.tasks ++ (build_task id problem_id user_id now ∷ []);
}
regenerate_ready id problem_id user_id now (some t) s = record s {
  solutions = delete_solution problem_id s.solutions;
  tasks = update_task t.id (reset now) s.tasks;
}

abbrev regenerate_failed : ℕ → Option SolutionTask → Store → Result Conflict (Unit {0}) × Store
regenerate_failed now none s = (err nothing_to_regenerate, s)
regenerate_failed now (some t) s =
    if has_status failed t
    then (ok tt, record s { tasks = update_task t.id (reset now) s.tasks })
    else (err in_progress, s)

unfoldable pub regenerate : ℕ → ℕ → ℕ → ℕ → Store → Result Conflict (Unit {0}) × Store
unfolding build_task update_task delete_solution
regenerate id problem_id user_id now s =
    if has_solution problem_id s.solutions
    then (ok tt, regenerate_ready id problem_id user_id now (first_task problem_id s.tasks) s)
    else regenerate_failed now (first_task problem_id s.tasks) s
