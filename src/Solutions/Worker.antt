-- ===== src/Solutions/Worker.antt =====
-- infrastructure/worker/solution_worker.py: the recovery of stuck tasks, the claim of the oldest
-- task that is due, and what processing a claimed task writes.
use learn_loop.Prelude.{
  ℕ, ◌+◌, ◌-◌, ◌*◌, ◌^◌, Option, none, some, String, List, [], ◌∷◌, ◌++◌, Bool, true, false, ◌&&◌,
  ◌||◌, not, leb, ltb, if◌then◌else◌,
}
use learn_loop.Solutions.Tasks.{
  SolutionTask, Solution, Store, pending, generating, ready, failed, has_status, update_task,
}

-- The worker's first write of a turn. `updated_at < now - timeout` is written without the
-- difference.
abbrev is_stuck : ℕ → ℕ → SolutionTask → Bool
is_stuck timeout now t =
    (has_status pending t || has_status generating t) && ltb (t.updated_at + timeout) now

unfoldable pub recover_stuck : ℕ → ℕ → List SolutionTask → List SolutionTask
recover_stuck timeout now [] = []
recover_stuck timeout now (t ∷ ts) =
    (if is_stuck timeout now t
      then record t { status = pending; updated_at = now; process_after = now }
      else t)
    ∷ recover_stuck timeout now ts

abbrev pub is_due : ℕ → SolutionTask → Bool
is_due now t = has_status pending t && leb t.process_after now

abbrev pub claimed : ℕ → SolutionTask → SolutionTask
claimed now t = record t {
  status = generating;
  started_at = some now;
  updated_at = now;
  process_after = now;
}

-- The oldest task that is due, `sort=[("created_at", 1)]`.
abbrev older : SolutionTask → Option SolutionTask → SolutionTask
older t none = t
older t (some u) = if ltb u.created_at t.created_at then u else t

unfoldable pub oldest_due : ℕ → List SolutionTask → Option SolutionTask
oldest_due now [] = none
oldest_due now (t ∷ ts) =
    let rest = oldest_due now ts in if is_due now t then some (older t rest) else rest

abbrev claim_found :
    ℕ → Option SolutionTask → List SolutionTask → Option SolutionTask × List SolutionTask
claim_found now none tasks = (none, tasks)
claim_found now (some t) tasks = (some (claimed now t), update_task t.id (claimed now) tasks)

unfoldable pub claim : ℕ → List SolutionTask → Option SolutionTask × List SolutionTask
unfolding update_task oldest_due
claim now tasks = claim_found now (oldest_due now tasks) tasks

-- How the attempt ended: the model's solution, a `SolutionCoachingVLMError`, or another exception
-- (from the image, the problem's fields, the call or the insert).
pub data Outcome : Type 0 where
  solved : String → String → String → Outcome
  vlm_error : Bool → String → Outcome
  other_error : String → Outcome

-- Thirty seconds, in microseconds.
abbrev pub half_minute : ℕ
half_minute = 30000000

-- `started` is the task as the worker claimed it; the write is to the stored one.
abbrev pub retried : SolutionTask → ℕ → SolutionTask → SolutionTask
retried started now t = record t {
  status = pending;
  retry_count = started.retry_count + 1;
  updated_at = now;
  process_after = now + half_minute * 2 ^ (started.retry_count + 1 - 1);
}

abbrev pub settled_as : Option String → ℕ → SolutionTask → SolutionTask
settled_as none now t = record t { status = ready; updated_at = now; process_after = now }
settled_as (some reason) now t = record t {
  status = failed;
  failure_reason = some reason;
  updated_at = now;
  process_after = now;
}

-- The change to the task's document.
unfoldable pub settle : ℕ → SolutionTask → Outcome → ℕ → SolutionTask → SolutionTask
settle max_retries started (solved steps answer level) now t = settled_as none now t
settle max_retries started (vlm_error retryable message) now t =
    if not retryable || ltb max_retries (started.retry_count + 1)
    then record (settled_as (some message) now t) { retry_count = started.retry_count + 1 }
    else retried started now t
settle max_retries started (other_error message) now t = settled_as (some message) now t

abbrev solution_of : SolutionTask → Outcome → String → ℕ → List Solution
solution_of started (solved steps answer level) hash at =
    record {
      problem_id = started.problem_id;
      user_id = started.user_id;
      steps_markdown = steps;
      final_answer = answer;
      level_classification = level;
      problem_context_hash = hash;
      created_at = at;
    }
    ∷ []
solution_of started _ hash at = []

-- `problem` is the hash of the problem's context (`compute_problem_context_hash`), if the problem is
-- still there. The solution is inserted whatever became of the task since it was claimed.
unfoldable pub process_task : ℕ → SolutionTask → Option String → Outcome → ℕ → ℕ → Store → Store
unfolding settle update_task
process_task max_retries started none outcome solved_at now s = record s {
  tasks = update_task started.id (settled_as (some "Problem not found") now) s.tasks;
}
process_task max_retries started (some hash) outcome solved_at now s = record s {
  solutions = s.solutions ++ solution_of started outcome hash solved_at;
  tasks = update_task started.id (settle max_retries started outcome now) s.tasks;
}

abbrev work_on :
    ℕ
    → (SolutionTask → Option String × Outcome)
    → ℕ
    → ℕ
    → Option SolutionTask
    → Store
    → Bool × Store
work_on max_retries attempt solved_at done none s = (false, s)
work_on max_retries attempt solved_at done (some t) s =
    (true, process_task max_retries t (attempt t).0 (attempt t).1 solved_at done s)

-- One turn of `run_solution_worker`, by a worker that is alone; whether it found a task. `attempt`
-- tells the hash of the task's problem and how the attempt ends.
unfoldable pub worker_turn :
    ℕ → ℕ → (SolutionTask → Option String × Outcome) → ℕ → ℕ → ℕ → Store → Bool × Store
unfolding recover_stuck claim
worker_turn timeout max_retries attempt now solved_at done s =
    let (task, tasks) = claim now (recover_stuck timeout now s.tasks) in
    work_on max_retries attempt solved_at done task (record s { tasks = tasks })
