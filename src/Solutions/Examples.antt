-- ===== src/Solutions/Examples.antt =====
-- The theorems on solutions at a concrete store.
use learn_loop.Prelude.{ℕ, ◌+◌, ◌≡◌, refl, none, some, true, false, ◌||◌, List, [], ◌∷◌, ok, arith}
use learn_loop.Solutions.Tasks.{SolutionTask, Solution, Store, ready, pending, failed, has_solution}
use learn_loop.Solutions.Queue.{ProblemRow, backfill, regenerate, reset, first_task}
use learn_loop.Solutions.Worker.{Outcome, claimed, claim, oldest_due, recover_stuck, process_task}
use learn_loop.Solutions.Uniqueness.{OneTaskEach, is_served, is_live_row, backfill_lem}
use learn_loop.Solutions.Retries.{attempts, Settled, attempts-Settled}
use learn_loop.Solutions.Late.{solution_with, late_worker_duplicates}
use learn_loop.Solutions.Regeneration.{Regenerated, has_failed, is_ok, regenerate_lem}

abbrev first_try : SolutionTask
first_try = record {
  id = 1;
  problem_id = 5;
  user_id = 7;
  status = failed;
  retry_count = 0;
  failure_reason = some "timeout";
  started_at = none;
  process_after = 10;
  created_at = 10;
  updated_at = 10;
}

abbrev store : Store
store = record { tasks = first_try ∷ []; solutions = [] }

abbrev rows : List ProblemRow
rows =
    record { id = 5; user_id = 7; is_deleted = false }
    ∷ record { id = 6; user_id = 7; is_deleted = false }
    ∷ []

backfill_example :
    let s' = (backfill (λ p. p + 100) 0 20 rows store).1 in
    OneTaskEach s'.tasks
    × ((p : ℕ) → is_live_row p rows ≡ true → is_served p s' ≡ true)
    × (backfill (λ p. p + 200) 3 30 rows s' ≡ (0, s'))
backfill_example =
    backfill_lem (λ p. p + 100) (λ p. p + 200) 0 3 20 30 rows store (refl, (refl, tt)) (refl, tt)

regenerate_example :
    let r = regenerate 2 5 7 20 store in
    OneTaskEach r.1.tasks
    × (is_ok r.0 ≡ (has_solution 5 store.solutions || has_failed (first_task 5 store.tasks)))
    × Regenerated 5 20 store r
regenerate_example = regenerate_lem 2 5 7 20 store (refl, tt)

abbrev refuses : ℕ → Outcome
refuses i = Outcome.vlm_error true "unavailable"

attempts_example : Settled 3 (attempts 4 3 refuses (λ i. i) first_try)
attempts_example = attempts-Settled 4 3 refuses (λ i. i) first_try (omega arith) (omega arith)

-- A task that is not due, and a solution of another problem.
abbrev other_task : SolutionTask
other_task = record first_try {
  id = first_try.id + 5;
  problem_id = first_try.problem_id + 5;
  status = ready;
  created_at = 7;
}

abbrev other_solution : Solution
other_solution = solution_with other_task "z" "5" "basic" "h" 50

late_example :
    let slow = claimed 100 first_try in
    let (again, tasks) = claim 200 (recover_stuck 60 200 (slow ∷ other_task ∷ [])) in
    let quick =
      claimed 200 (record slow { status = pending; updated_at = 200; process_after = 200 }) in
    let s =
      process_task 3 quick
        (some "h")
        (Outcome.solved "x" "4" "basic")
        210
        210
        (record { tasks = tasks; solutions = other_solution ∷ [] }) in
    let s' = process_task 3 slow (some "h") (Outcome.solved "y" "4" "basic") 220 220 s in
    (again ≡ some quick)
    × (s'.solutions
        ≡ other_solution
          ∷ solution_with first_try "x" "4" "basic" "h" 210
          ∷ solution_with first_try "y" "4" "basic" "h" 220
          ∷ [])
    × ((regenerate 2 first_try.problem_id first_try.user_id 220 s').0 ≡ ok tt)
    × ((regenerate 2 first_try.problem_id first_try.user_id 220 s').1.solutions
        ≡ other_solution ∷ solution_with first_try "y" "4" "basic" "h" 220 ∷ [])
    × ((regenerate 2 first_try.problem_id first_try.user_id 220 s').1.tasks
        ≡ reset 220 first_try ∷ recover_stuck 60 200 (other_task ∷ []))
unfolding recover_stuck oldest_due
late_example =
    late_worker_duplicates 60 3 100 200 210 220 2 "h" "x" "4" "basic" "y" "4" "basic" first_try
      (other_task ∷ []) (other_solution ∷ []) (omega arith) refl refl refl
