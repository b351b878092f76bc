-- ===== src/Solutions/Regeneration.antt =====
-- Regenerating gives the problem a fresh task, or changes nothing.
use learn_loop.Prelude.{
  ℕ, ◌≡◌, refl, sym, ==-refl, Option, none, some, List, [], ◌∷◌, ◌++◌, Bool, true, false, ◌||◌,
  arith, ◌==◌, Bool-cases, Option-cases, inl, inr, Result, ok, err,
}
use learn_loop.Solutions.Tasks.{
  SolutionTask, Solution, Store, pending, failed, has_status, has_task, has_solution, update_task,
}
use learn_loop.Solutions.Queue.{
  build_task, first_task, reset, Conflict, delete_solution, regenerate,
}
use learn_loop.Solutions.Uniqueness.{OneTaskEach, appended-OneTaskEach}

has_task-update_task :
    (p id now : ℕ) (ts : List SolutionTask)
    → has_task p (update_task id (reset now) ts) ≡ has_task p ts
unfolding update_task
has_task-update_task p id now [] = refl
has_task-update_task p id now (t ∷ ts) = ground (arith, has_task-update_task p id now ts)

update_task-OneTaskEach :
    (id now : ℕ) (ts : List SolutionTask)
    → OneTaskEach ts
    → OneTaskEach (update_task id (reset now) ts)
unfolding update_task
update_task-OneTaskEach id now [] o = tt
update_task-OneTaskEach id now (t ∷ ts) o =
    ground
      (arith, has_task-update_task t.problem_id id now ts, update_task-OneTaskEach id now ts o.1)

first-reset :
    (p now : ℕ) (ts : List SolutionTask) (t : SolutionTask)
    → first_task p ts ≡ some t
    → first_task p (update_task t.id (reset now) ts) ≡ some (reset now t)
unfolding update_task
first-reset p now [] t h = cc
first-reset p now (u ∷ ts) t h = ground (arith, first-reset p now ts t)

first-none : (p : ℕ) (ts : List SolutionTask) → first_task p ts ≡ none → has_task p ts ≡ false
first-none p [] h = refl
first-none p (t ∷ ts) h = ground (arith, first-none p ts)

first-append :
    (p : ℕ) (ts : List SolutionTask) (t : SolutionTask)
    → has_task p ts ≡ false
    → (t.problem_id == p) ≡ true
    → first_task p (ts ++ (t ∷ [])) ≡ some t
first-append p [] t h e = rw e refl
first-append p (u ∷ ts) t h e = ground (arith, first-append p ts t)

-- A task that will be worked on as if it were new.
abbrev pub IsFresh : ℕ → Option SolutionTask → Type 0
IsFresh now none = ⊥
IsFresh now (some t) =
    (t.status ≡ pending) × (t.retry_count ≡ 0) × (t.failure_reason ≡ none) × (t.process_after ≡ now)

-- What a regeneration did to a store, by its answer.
abbrev pub Regenerated : ℕ → ℕ → Store → Result Conflict (Unit {0}) × Store → Type 0
Regenerated p now s (ok _, s') =
    IsFresh now (first_task p s'.tasks) × (s'.solutions ≡ delete_solution p s.solutions)
Regenerated p now s (err _, s') = s' ≡ s

delete-none : (p : ℕ) (xs : List Solution) → has_solution p xs ≡ false → delete_solution p xs ≡ xs
unfolding delete_solution
delete-none p [] h = refl
delete-none p (x ∷ xs) h = ground (arith, delete-none p xs)

abbrev pub has_failed : Option SolutionTask → Bool
has_failed none = false
has_failed (some t) = has_status failed t

abbrev pub is_ok : Result Conflict (Unit {0}) → Bool
is_ok (ok _) = true
is_ok (err _) = false

-- Regenerating keeps that no problem has two tasks. It succeeds exactly when the problem has a
-- solution or its first task failed; then that task is fresh, and the first solution of the problem
-- is deleted if there is one. Otherwise nothing changes.
pub regenerate_lem :
    (id p user_id now : ℕ) (s : Store)
    → OneTaskEach s.tasks
    → let r = regenerate id p user_id now s in
      OneTaskEach r.1.tasks
      × (is_ok r.0 ≡ (has_solution p s.solutions || has_failed (first_task p s.tasks)))
      × Regenerated p now s r
unfolding regenerate
regenerate_lem id p user_id now s o = elim (Bool-cases (has_solution p s.solutions)) [
  | inl e ↦ rw e (elim (Option-cases (first_task p s.tasks)) [
    | inl n ↦
        let new = build_task id p user_id now in
        let absent = first-none p s.tasks n in
        rw n (
          appended-OneTaskEach new s.tasks o absent,
          refl,
          (rw (first-append p s.tasks new absent (==-refl p)) (refl, refl, refl, refl), refl),
        )
    | inr (t, f) ↦ rw f (
      update_task-OneTaskEach t.id now s.tasks o,
      refl,
      (rw (first-reset p now s.tasks t f) (refl, refl, refl, refl), refl),
    )
  ])
  | inr e ↦ rw e (elim (Option-cases (first_task p s.tasks)) [
    | inl n ↦ rw n (o, refl, refl)
    | inr (t, f) ↦ rw f (elim (Bool-cases (has_status failed t)) [
      | inl d ↦ rw d (
        update_task-OneTaskEach t.id now s.tasks o,
        refl,
        (
          rw (first-reset p now s.tasks t f) (refl, refl, refl, refl),
          sym (delete-none p s.solutions e),
        ),
      )
      | inr d ↦ rw d (o, refl, refl)
    ])
  ])
]
