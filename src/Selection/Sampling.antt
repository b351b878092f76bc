-- ===== src/Selection/Sampling.antt =====
-- The draw of problems by weight, without replacement, and the choice of a practice problem
-- (backend/app/domain/selection.py and practice_selection.py). `random n` is the n-th number of the
-- generator.
use learn_loop.Prelude.{
  ℕ, suc, ◌+◌, Option, none, some, List, [], ◌∷◌, Bool, true, false, any, if◌then◌else◌,
}
use learn_loop.Selection.Score.{
  Floats, Problem, Config, is_practiceable, get_eligible_problems, compute_score_breakdown,
}

abbrev pub is_nothing {ℓ} : {A : Type ℓ} → List A → Bool
is_nothing [] = true
is_nothing (x ∷ xs) = false

-- `remaining.pop(idx)` of a list that is not empty; `idx` is in range.
abbrev pub pop_at {ℓ} : {A : Type ℓ} → ℕ → A → List A → A × List A
pop_at ℕ.zero x xs = (x, xs)
pop_at (suc k) x [] = (x, [])
pop_at (suc k) x (y ∷ ys) = let (popped, rest) = pop_at k y ys in (popped, x ∷ rest)

pub data PracticeStatus : Type 0 where
  practice_ok no_eligible no_problems : PracticeStatus

-- `_has_practiceable_answer`, as a truth value.
abbrev pub has_practiceable_answer : List Problem → Bool
has_practiceable_answer problems = any is_practiceable problems

abbrev pub selected_status : List Problem → Option Problem × PracticeStatus
selected_status [] = (none, no_eligible)
selected_status (p ∷ ps) = (some p, practice_ok)

module _ {F : Type 0} (float : Floats F) where
  unfoldable pub total_weight : F → List (Problem × F) → F
  total_weight sum [] = sum
  total_weight sum ((p, w) ∷ rest) = total_weight (float.add sum w) rest

  -- The first index whose cumulative weight reaches `r`, or 0.
  pub chosen_index : F → F → ℕ → List (Problem × F) → ℕ
  chosen_index r cumulative index [] = 0
  chosen_index r cumulative index ((p, w) ∷ rest) =
      let later = chosen_index r (float.add cumulative w) (index + 1) rest in
      if float.le r (float.add cumulative w) then index else later

  -- The eligible problems whose total is positive, with it.
  unfoldable pub weighted : Config F → ℕ → List Problem → List (Problem × F)
  weighted c now [] = []
  weighted c now (p ∷ ps) =
      let score = (compute_score_breakdown float c now p).total in
      let rest = weighted c now ps in
      if float.lt (float.of_nat 0) score then (p, score) ∷ rest else rest

  module _ (random : ℕ → F) where
    -- `_weighted_sample_without_replacement`; the draw that comes next is the n-th.
    unfoldable pub weighted_sample : ℕ → ℕ → List (Problem × F) → List Problem
    weighted_sample n ℕ.zero remaining = []
    weighted_sample n (suc count) [] = []
    weighted_sample n (suc count) (x ∷ xs) =
        let total = total_weight (float.of_nat 0) (x ∷ xs) in
        let index = chosen_index (float.mul (random n) total) (float.of_nat 0) 0 (x ∷ xs) in
        let (picked, rest) = pop_at index x xs in
        let others = weighted_sample (suc n) count rest in
        if float.le total (float.of_nat 0) then [] else picked.0 ∷ others

    unfoldable pub select_problems : List Problem → ℕ → Config F → ℕ → List Problem
    unfolding get_eligible_problems weighted weighted_sample
    select_problems problems count c now =
        weighted_sample 0 count (weighted c now (get_eligible_problems c now problems))

    -- The configuration of practice is that of the exams, under another name.
    unfoldable pub select_practice_problem :
        List Problem → Config F → ℕ → Option Problem × PracticeStatus
    unfolding select_problems get_eligible_problems
    select_practice_problem problems c now =
        if is_nothing problems
        then (none, no_problems)
        else if is_nothing (get_eligible_problems c now problems)
        then (none, if has_practiceable_answer problems then no_eligible else no_problems)
        else selected_status (select_problems problems 1 c now)
