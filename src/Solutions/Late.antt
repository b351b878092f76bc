-- ===== src/Solutions/Late.antt =====
-- Two workers on one task: the write of a solution does not test that the task is still claimed.
use learn_loop.Prelude.{
  ℕ, ◌+◌, ◌<◌, ◌≡◌, some, none, String, List, [], ◌∷◌, ◌++◌, ◌||◌, ◌==◌, Bool, true, false, refl,
  all, ==-refl, not, ok, arith,
}
use learn_loop.Solutions.Tasks.{SolutionTask, Solution, pending, has_solution, update_task}
use learn_loop.Solutions.Queue.{regenerate, reset, delete_solution}
use learn_loop.Solutions.Worker.{
  settled_as, settle, is_due, Outcome, claimed, claim, recover_stuck, process_task, oldest_due,
}

abbrev pub solution_with : SolutionTask → String → String → String → String → ℕ → Solution
solution_with t steps answer level hash at = record {
  problem_id = t.problem_id;
  user_id = t.user_id;
  steps_markdown = steps;
  final_answer = answer;
  level_classification = level;
  problem_context_hash = hash;
  created_at = at;
}

has_solution-++ :
    (p : ℕ) (xs ys : List Solution)
    → has_solution p (xs ++ ys) ≡ (has_solution p xs || has_solution p ys)
has_solution-++ p [] ys = refl
has_solution-++ p (x ∷ xs) ys = ground (arith, has_solution-++ p xs ys)

delete-other :
    (p : ℕ) (xs : List Solution) (y : Solution) (ys : List Solution)
    → has_solution p xs ≡ false
    → y.problem_id == p ≡ true
    → delete_solution p ((xs ++ (y ∷ [])) ++ ys) ≡ xs ++ ys
unfolding delete_solution
delete-other p [] y ys h e = rw e refl
delete-other p (x ∷ xs) y ys h e = ground (arith, h, delete-other p xs y ys, e)

-- The tasks have other ids.
abbrev pub no_task : ℕ → List SolutionTask → Bool
no_task id ts = all (λ (u : SolutionTask). not (u.id == id)) ts

no_task-recover_stuck :
    (id timeout now : ℕ) (ts : List SolutionTask)
    → no_task id ts ≡ true
    → no_task id (recover_stuck timeout now ts) ≡ true
unfolding recover_stuck
no_task-recover_stuck id timeout now [] h = refl
no_task-recover_stuck id timeout now (u ∷ ts) h =
    ground (arith, h, no_task-recover_stuck id timeout now ts)

update_other :
    (id : ℕ) (change : SolutionTask → SolutionTask) (ts : List SolutionTask)
    → no_task id ts ≡ true
    → update_task id change ts ≡ ts
unfolding update_task
update_other id change [] h = refl
update_other id change (u ∷ ts) h = ground (arith, h, update_other id change ts)

abbrev recovered : ℕ → SolutionTask → SolutionTask
recovered now t = record t { status = pending; updated_at = now; process_after = now }

recover-late :
    (timeout start now : ℕ) (t : SolutionTask) (ts : List SolutionTask)
    → start + timeout < now
    → recover_stuck timeout now (claimed start t ∷ ts)
      ≡ recovered now (claimed start t) ∷ recover_stuck timeout now ts
unfolding recover_stuck
recover-late timeout start now t ts h = ground (arith, h)

module _ (ts : List SolutionTask) (u : SolutionTask) (alone : no_task u.id ts ≡ true) where
  oldest-only :
      (now : ℕ) → is_due now u ≡ true → oldest_due now ts ≡ none → oldest_due now (u ∷ ts) ≡ some u
  unfolding oldest_due
  oldest-only now due h = rw (due, h) refl

  claim-only :
      (now : ℕ)
      → is_due now u ≡ true
      → oldest_due now ts ≡ none
      → claim now (u ∷ ts) ≡ (some (claimed now u), claimed now u ∷ ts)
  unfolding claim
  claim-only now due h =
      rw (oldest-only now due h) (rw (==-refl, update_other u.id (claimed now) ts alone) refl)

  process-first :
      (max_retries : ℕ) (started : SolutionTask) (hash a b c : String) (at done : ℕ)
      (xs : List Solution)
      → no_task started.id ts ≡ true
      → u.id == started.id ≡ true
      → process_task max_retries started
          (some hash)
          (Outcome.solved a b c)
          at
          done
          (record { tasks = u ∷ ts; solutions = xs })
        ≡ (record {
          tasks = settled_as none done u ∷ ts;
          solutions = xs ++ (solution_with started a b c hash at ∷ []);
        })
  unfolding process_task settle
  process-first max_retries started hash a b c at done xs others e =
      rw
        (
          e,
          update_other started.id (settle max_retries started (Outcome.solved a b c) done) ts
              others,
        )
        refl

  regenerate-first :
      (id now : ℕ) (others : List Solution) (x : Solution) (ys : List Solution)
      → has_solution u.problem_id others ≡ false
      → x.problem_id ≡ u.problem_id
      → regenerate id u.problem_id u.user_id now
          (record { tasks = u ∷ ts; solutions = (others ++ (x ∷ [])) ++ ys })
        ≡ (ok tt, record { tasks = reset now u ∷ ts; solutions = others ++ ys })
  unfolding regenerate
  regenerate-first id now others x ys o e =
      let same : x.problem_id == u.problem_id ≡ true = ground arith in
      let stored : has_solution u.problem_id ((others ++ (x ∷ [])) ++ ys) ≡ true = ground (
        arith,
        has_solution-++ u.problem_id (others ++ (x ∷ [])) ys,
        has_solution-++ u.problem_id others (x ∷ []),
        same,
      ) in
      rw (stored, ==-refl)
        (rw
          (
            ==-refl,
            delete-other u.problem_id others x ys o same,
            update_other u.id (reset now) ts alone,
          )
          refl)

-- A worker that takes longer than the timeout over its task, the first of those stored, loses it to
-- the recovery, and a second worker claims it, as no other task is due. If the model answers both and
-- the problem had no solution, both solutions are stored for it, and a regeneration deletes only the
-- first of them: the problem still has a solution that was to be replaced, while its task is pending
-- again.
pub late_worker_duplicates :
    (timeout max_retries start now later end id : ℕ) (hash a b c d e f : String) (t : SolutionTask)
    (ts : List SolutionTask) (others : List Solution)
    → start + timeout < now
    → oldest_due now (recover_stuck timeout now ts) ≡ none
    → no_task t.id ts ≡ true
    → has_solution t.problem_id others ≡ false
    → let slow = claimed start t in
      let (again, tasks) = claim now (recover_stuck timeout now (slow ∷ ts)) in
      let quick =
        claimed now (record slow { status = pending; updated_at = now; process_after = now }) in
      let s =
        process_task max_retries quick
          (some hash)
          (Outcome.solved a b c)
          later
          later
          (record { tasks = tasks; solutions = others }) in
      let s' = process_task max_retries slow (some hash) (Outcome.solved d e f) end end s in
      (again ≡ some quick)
      × (s'.solutions
          ≡ (others ++ (solution_with t a b c hash later ∷ []))
            ++ (solution_with t d e f hash end ∷ []))
      × ((regenerate id t.problem_id t.user_id end s').0 ≡ ok tt)
      × ((regenerate id t.problem_id t.user_id end s').1.solutions
          ≡ others ++ (solution_with t d e f hash end ∷ []))
      × ((regenerate id t.problem_id t.user_id end s').1.tasks
          ≡ reset end t ∷ recover_stuck timeout now ts)
late_worker_duplicates timeout max_retries start now later end id hash a b c d e f t ts others h n u
      o =
    let rest = recover_stuck timeout now ts in
    let kept = no_task-recover_stuck t.id timeout now ts u in
    let due = recovered now (claimed start t) in
    let quick = claimed now due in
    let x = solution_with t a b c hash later in
    let y = solution_with t d e f hash end in
    rw (recover-late timeout start now t ts h, claim-only rest due kept now (ground arith) n)
      (rw
        (process-first rest quick kept max_retries quick hash a b c later later others kept
          (==-refl t.id))
        (rw
          (process-first rest (settled_as none later quick) kept max_retries (claimed start t) hash
            d e f end end (others ++ (x ∷ [])) kept (==-refl t.id))
          (rw
            (regenerate-first rest (settled_as none end (settled_as none later quick)) kept id end
              others x (y ∷ []) o refl)
            (refl, refl, refl, refl, refl))))
