-- ===== src/Solutions/Tasks.antt =====
-- The documents of tasks and solutions. Identifiers and times (in microseconds) are numbers.
use learn_loop.Prelude.{ℕ, Option, String, List, Bool, ◌==◌, any, if◌then◌else◌}

-- `SolutionGenerationStatus`
pub data SolutionStatus : Type 0 where
  pending generating ready failed : SolutionStatus

-- `SolutionGenerationTask`; every task that the code writes has a `process_after`.
pub record SolutionTask : Type 0 where
  pub id : ℕ
  pub problem_id : ℕ
  pub user_id : ℕ
  pub status : SolutionStatus
  pub retry_count : ℕ
  pub failure_reason : Option String
  pub started_at : Option ℕ
  pub process_after : ℕ
  pub created_at : ℕ
  pub updated_at : ℕ

-- `CanonicalSolution`, with the hash of the problem's context.
pub record Solution : Type 0 where
  pub problem_id : ℕ
  pub user_id : ℕ
  pub steps_markdown : String
  pub final_answer : String
  pub level_classification : String
  pub problem_context_hash : String
  pub created_at : ℕ

-- The two collections; neither has a unique index.
pub record Store : Type 0 where
  pub tasks : List SolutionTask
  pub solutions : List Solution

abbrev pub status_code : SolutionStatus → ℕ
status_code pending = 0
status_code generating = 1
status_code ready = 2
status_code failed = 3

abbrev pub has_status : SolutionStatus → SolutionTask → Bool
has_status s t = status_code t.status == status_code s

abbrev pub has_task : ℕ → List SolutionTask → Bool
has_task p tasks = any (λ (t : SolutionTask). t.problem_id == p) tasks

abbrev pub has_solution : ℕ → List Solution → Bool
has_solution p solutions = any (λ (s : Solution). s.problem_id == p) solutions

-- The documents with this `_id`, rewritten.
unfoldable pub update_task :
    ℕ → (SolutionTask → SolutionTask) → List SolutionTask → List SolutionTask
update_task id change List.[] = List.[]
update_task id change (List.◌∷◌ t ts) =
    List.◌∷◌ (if t.id == id then change t else t) (update_task id change ts)
