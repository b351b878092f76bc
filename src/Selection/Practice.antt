-- ===== src/Selection/Practice.antt =====
-- Which answer the choice of a practice problem gives.
use learn_loop.Prelude.{ℕ, ◌≡◌, List, [], ◌∷◌, true, false, not, any, arith, refl, if◌then◌else◌}
use learn_loop.Selection.Score.{
  Floats, Problem, Config, is_eligible, get_eligible_problems, is_practiceable,
}
use learn_loop.Selection.Sampling.{
  weighted_sample, weighted, select_problems, is_nothing, selected_status, select_practice_problem,
  practice_ok, no_eligible, no_problems,
}
use learn_loop.Selection.Draws.{SumsArePositive, Positive, weighted-Positive}

-- Where no problem is practiceable, none is eligible.
none_eligible :
    {F : Type 0} (c : Config F) (now : ℕ) (ps : List Problem)
    → any is_practiceable ps ≡ false
    → is_nothing (get_eligible_problems c now ps) ≡ true
unfolding get_eligible_problems is_eligible
none_eligible c now [] h = refl
none_eligible c now (p ∷ ps) h =
    ground (arith, h, λ (t : any is_practiceable ps ≡ false). none_eligible c now ps t)

-- Without problems nothing can be drawn or practised.
empty_lem :
    {F : Type 0} (float : Floats F) (c : Config F) (now : ℕ) (ps : List Problem)
    → is_nothing ps ≡ true
    → (is_nothing (get_eligible_problems c now ps) ≡ true) × (any is_practiceable ps ≡ false)
unfolding get_eligible_problems
empty_lem float c now [] h = (refl, refl)
empty_lem float c now (p ∷ ps) h = ground arith

weighted_empty :
    {F : Type 0} (float : Floats F) (c : Config F) (now : ℕ) (ps : List Problem)
    → is_nothing ps ≡ true
    → is_nothing (weighted float c now ps) ≡ true
unfolding weighted
weighted_empty float c now [] h = refl
weighted_empty float c now (p ∷ ps) h = ground arith

status_lem :
    (ps : List Problem)
    → (selected_status ps).1 ≡ (if is_nothing ps then no_eligible else practice_ok)
status_lem [] = refl
status_lem (p ∷ ps) = refl

module _ {F : Type 0} (float : Floats F) (random : ℕ → F) where
  sample_lem :
      SumsArePositive float
      → (xs : List (Problem × F)) → Positive float xs
      → is_nothing (weighted_sample float random 0 1 xs) ≡ is_nothing xs
  unfolding weighted_sample
  sample_lem sums [] h = refl
  sample_lem sums (x ∷ xs) h = rw (sums x xs h) refl

  -- The status of a practice draw says why there is no problem: where sums of positive floats are
  -- positive, one is found if and only if some problem is eligible with a positive score; otherwise
  -- the answer is that none is eligible if some problem could be practised at all, and that there
  -- are no problems if none could.
  pub practice_status_lem :
      (problems : List Problem) (c : Config F) (now : ℕ)
      → SumsArePositive float
      → (select_practice_problem float random problems c now).1 ≡ (
          if not (is_nothing (weighted float c now (get_eligible_problems c now problems)))
          then practice_ok
          else if any is_practiceable problems
          then no_eligible
          else no_problems)
  unfolding select_practice_problem select_problems
  practice_status_lem problems c now sums =
      let eligible = get_eligible_problems c now problems in
      let candidates = weighted float c now eligible in
      ground (
        arith,
        status_lem (weighted_sample float random 0 1 candidates),
        sample_lem sums candidates (weighted-Positive float c now eligible),
        λ (t : is_nothing problems ≡ true). empty_lem float c now problems t,
        λ (t : is_nothing eligible ≡ true). weighted_empty float c now eligible t,
        λ (t : any is_practiceable problems ≡ false). none_eligible c now problems t,
      )
