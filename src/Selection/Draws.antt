-- ===== src/Selection/Draws.antt =====
-- What a draw takes: eligible problems, each at most once, and as many as there are up to the count.
use learn_loop.Prelude.{
  ℕ, suc, ◌≡◌, List, [], ◌∷◌, ◌++◌, true, false, map, arith, refl, length, ltb, All, Bool-cases,
  inl, inr, if◌then◌else◌,
}
use learn_loop.Selection.Score.{
  compute_score_breakdown, Floats, Problem, Config, get_eligible_problems,
}
use learn_loop.Selection.Sampling.{
  pop_at, weighted_sample, weighted, select_problems, total_weight, chosen_index,
}
use mathlib.Core.List.{Perm}
use mathlib.Core.List.Perm

pop_at-Perm :
    {A B : Type 0} (f : A → B) (k : ℕ) (x : A) (xs : List A)
    → Perm (f x ∷ map f xs) (f (pop_at k x xs).0 ∷ map f (pop_at k x xs).1)
pop_at-Perm f ℕ.zero x xs = Perm.refl (f x ∷ map f xs)
pop_at-Perm f (suc k) x [] = Perm.refl (f x ∷ [])
pop_at-Perm f (suc k) x (y ∷ ys) =
    Perm.trans (Perm.cons (f x) (pop_at-Perm f k y ys)) (Perm.swap _ _ _)

length-pop_at : {A : Type 0} (k : ℕ) (x : A) (xs : List A) → length (pop_at k x xs).1 ≡ length xs
length-pop_at ℕ.zero x xs = refl
length-pop_at (suc k) x [] = refl
length-pop_at (suc k) x (y ∷ ys) = ground (arith, length-pop_at k y ys)

pop_at-All :
    {A : Type 0} (P : A → Type 0) (k : ℕ) (x : A) (xs : List A)
    → P x
    → All P xs
    → P (pop_at k x xs).0 × All P (pop_at k x xs).1
pop_at-All P ℕ.zero x xs p h = (p, h)
pop_at-All P (suc k) x [] p h = (p, h)
pop_at-All P (suc k) x (y ∷ ys) p h = let (q, r) = pop_at-All P k y ys h.0 h.1 in (q, (p, r))

abbrev pub problems_of {ℓ} : {F : Type ℓ} → List (Problem × F) → List Problem
problems_of xs = map (λ x. x.0) xs

abbrev pub smaller : ℕ → ℕ → ℕ
smaller a b = if ltb a b then a else b

length-map : {F : Type 0} (xs : List (Problem × F)) → length (problems_of xs) ≡ length xs
length-map [] = refl
length-map (x ∷ xs) = ground (arith, length-map xs)

module _ {F : Type 0} (float : Floats F) where
  -- Every weight of the list is positive.
  abbrev pub Positive : List (Problem × F) → Type 0
  Positive xs = All (λ x. float.lt (float.of_nat 0) x.1 ≡ true) xs

  pub weighted-Positive :
      (c : Config F) (now : ℕ) (ps : List Problem) → Positive (weighted float c now ps)
  unfolding weighted
  weighted-Positive c now [] = tt
  weighted-Positive c now (p ∷ ps) =
      elim (Bool-cases (float.lt (float.of_nat 0) (compute_score_breakdown float c now p).total)) [
        | inl e ↦ rw e (e, weighted-Positive c now ps)
        | inr e ↦ rw e (weighted-Positive c now ps)
      ]

  -- The problems that may be drawn: eligible, and of a positive score.
  abbrev pub drawable : Config F → ℕ → List Problem → List Problem
  unfolding weighted get_eligible_problems
  drawable c now problems =
      problems_of (weighted float c now (get_eligible_problems c now problems))

  -- What holds of floats: a sum of positive ones, of which there is one at least, is positive.
  abbrev pub SumsArePositive : Type 0
  SumsArePositive =
      (y : Problem × F) (ys : List (Problem × F))
      → Positive (y ∷ ys)
      → float.le (total_weight float (float.of_nat 0) (y ∷ ys)) (float.of_nat 0) ≡ false

module _ {F : Type 0} (float : Floats F) (random : ℕ → F) where
  -- What is drawn, and what is left.
  weighted_sample-Perm :
      (n count : ℕ) (xs : List (Problem × F))
      → (rest : List Problem) × Perm
          (problems_of xs)
          (weighted_sample float random n count xs ++ rest)
  unfolding weighted_sample
  weighted_sample-Perm n ℕ.zero xs = (problems_of xs, Perm.refl _)
  weighted_sample-Perm n (suc count) [] = ([], Perm.refl [])
  weighted_sample-Perm n (suc count) (x ∷ xs) =
      let total = total_weight float (float.of_nat 0) (x ∷ xs) in
      let index = chosen_index float (float.mul (random n) total) (float.of_nat 0) 0 (x ∷ xs) in
      let (rest, p) = weighted_sample-Perm (suc n) count (pop_at index x xs).1 in
      elim (Bool-cases (float.le total (float.of_nat 0))) [
        | inl e ↦ rw e (problems_of (x ∷ xs), Perm.refl _)
        | inr e ↦ rw e (
          rest,
          Perm.trans (pop_at-Perm (λ y. y.0) index x xs) (Perm.cons (pop_at index x xs).0.0 p),
        )
      ]

  length-weighted_sample :
      SumsArePositive float
      → (n count : ℕ) (xs : List (Problem × F)) → Positive float xs
      → length (weighted_sample float random n count xs) ≡ smaller count (length xs)
  unfolding weighted_sample
  length-weighted_sample sums n ℕ.zero xs h = ground arith
  length-weighted_sample sums n (suc count) [] h = ground arith
  length-weighted_sample sums n (suc count) (x ∷ xs) h =
      let total = total_weight float (float.of_nat 0) (x ∷ xs) in
      let index = chosen_index float (float.mul (random n) total) (float.of_nat 0) 0 (x ∷ xs) in
      rw (sums x xs h) (
        ground (
          arith,
          length-pop_at index x xs,
          length-weighted_sample sums (suc n) count (pop_at index x xs).1
              (pop_at-All (λ y. float.lt (float.of_nat 0) y.1 ≡ true) index x xs h.0 h.1).1,
        ))

  -- A draw is without replacement: what is drawn, with a rest, is a rearrangement of the problems
  -- that are eligible and have a positive score; and where sums of positive floats are positive, as
  -- many problems are drawn as were asked for, or all where there are fewer.
  pub select_problems_lem :
      (problems : List Problem) (count : ℕ) (c : Config F) (now : ℕ)
      → SumsArePositive float
      → ((rest : List Problem) × Perm
            (drawable float c now problems)
            (select_problems float random problems count c now ++ rest))
        × (length (select_problems float random problems count c now)
            ≡ smaller count (length (drawable float c now problems)))
  unfolding select_problems
  select_problems_lem problems count c now sums = (
    weighted_sample-Perm 0 count _,
    rw (length-map (weighted float c now (get_eligible_problems c now problems))) (
        length-weighted_sample sums 0 count _
          (weighted-Positive float c now (get_eligible_problems c now problems))),
  )
