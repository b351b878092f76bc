-- ===== src/Selection/Examples.antt =====
-- The theorems on draws at concrete problems, with whole numbers for the floats.
use learn_loop.Prelude.{
  ℕ, ◌+◌, ◌*◌, ◌≤◌, ◌≡◌, Option, none, some, List, [], ◌∷◌, ◌++◌, false, arith, ltb, leb, not, any,
  length, if◌then◌else◌,
}
use Prim.Native.Nat.{◌/◌}
use mathlib.Core.List.{Perm}
use learn_loop.Selection.Score.{
  Floats, Problem, Config, day, get_eligible_problems, is_practiceable,
}
use learn_loop.Selection.Sampling.{
  total_weight, weighted, select_problems, select_practice_problem, is_nothing, practice_ok,
  no_eligible, no_problems,
}
use learn_loop.Selection.Draws.{SumsArePositive, drawable, smaller, select_problems_lem}
use learn_loop.Selection.Practice.{practice_status_lem}

abbrev whole : Floats ℕ
whole = record {
  of_nat = λ n. n;
  add = λ a b. a + b;
  mul = λ a b. a * b;
  div = λ a b. a / b;
  neg = λ a. 0;
  sqrt = λ a. a;
  max = λ a b. if ltb a b then b else a;
  le = leb;
  lt = ltb;
}

grows : (sum : ℕ) (xs : List (Problem × ℕ)) → sum ≤ total_weight whole sum xs
unfolding total_weight
grows sum [] = ground arith
grows sum (x ∷ xs) = ground (arith, grows (sum + x.1) xs)

sums : SumsArePositive whole
unfolding total_weight
sums y ys h = ground (arith, h.0, grows (0 + y.1) ys)

abbrev problem : ℕ → Option ℕ → Problem
problem id last_tested = record {
  id = id;
  is_deleted = false;
  is_disabled = false;
  correct_answer = some (record { display = "4"; normalized_text = "4"; normalized_set = [] });
  created_at = 0;
  tracking = record {
    exposure_count = 0;
    correct_count = 0;
    failed_count = 0;
    last_tested_at = last_tested;
    last_attempt_correct = none;
  };
}

abbrev config : Config ℕ
config = record {
  cooldown_days = 7;
  min_problem_age_days = 3;
  last_wrong_weight = 1;
  failure_rate_weight = 1;
  recency_weight = 1;
}

-- The second was tested too recently.
abbrev pool : List Problem
pool = problem 1 none ∷ problem 2 (some (9 * day)) ∷ problem 3 none ∷ []

draw_example :
    ((rest : List Problem) × Perm
        (drawable whole config (10 * day) pool)
        (select_problems whole (λ n. 0) pool 2 config (10 * day) ++ rest))
    × (length (select_problems whole (λ n. 0) pool 2 config (10 * day))
        ≡ smaller 2 (length (drawable whole config (10 * day) pool)))
draw_example = select_problems_lem whole (λ n. 0) pool 2 config (10 * day) sums

practice_example : (select_practice_problem whole (λ n. 0) pool config (10 * day)).1 ≡ (
    if not
      (is_nothing (weighted whole config (10 * day) (get_eligible_problems config (10 * day) pool)))
    then practice_ok
    else if any is_practiceable pool
    then no_eligible
    else no_problems)
practice_example = practice_status_lem whole (λ n. 0) pool config (10 * day) sums
