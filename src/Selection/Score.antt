-- ===== src/Selection/Score.antt =====
-- backend/app/domain/selection.py: eligibility and the score of a problem. Times are microseconds, and
-- the arithmetic on floats is a parameter.
use learn_loop.Prelude.{
  ℕ, ◌+◌, ◌-◌, ◌*◌, Option, none, some, List, [], ◌∷◌, Bool, false, ◌&&◌, not, ltb, ◌==◌, is_truthy,
  if◌then◌else◌,
}
use Prim.Native.Nat.{◌/◌}
use learn_loop.Exam.Model.{CorrectAnswer, Tracking}

-- Python's operations on floats, of which a natural number is one.
pub record Floats (F : Type 0) : Type 0 where
  pub of_nat : ℕ → F
  pub add : F → F → F
  pub mul : F → F → F
  pub div : F → F → F
  pub neg : F → F
  pub sqrt : F → F
  pub max : F → F → F
  pub le : F → F → Bool
  pub lt : F → F → Bool

pub record Problem : Type 0 where
  pub id : ℕ
  pub is_deleted : Bool
  pub is_disabled : Bool
  pub correct_answer : Option CorrectAnswer
  pub created_at : ℕ
  pub tracking : Tracking

pub record Config (F : Type 0) : Type 0 where
  pub cooldown_days : ℕ
  pub min_problem_age_days : ℕ
  pub last_wrong_weight : F
  pub failure_rate_weight : F
  pub recency_weight : F

abbrev pub day : ℕ
day = 86400000000

abbrev pub has_answer : Option CorrectAnswer → Bool
has_answer none = false
has_answer (some a) = is_truthy a.normalized_text

-- Neither deleted nor disabled, and with an answer.
abbrev pub is_practiceable : Problem → Bool
is_practiceable p = not p.is_deleted && not p.is_disabled && has_answer p.correct_answer

-- `cutoff < time`, where the cutoff is that many days before now.
abbrev pub is_after_cutoff : ℕ → ℕ → ℕ → Bool
is_after_cutoff time days now = ltb now (time + days * day)

abbrev pub tested_after_cutoff : Option ℕ → ℕ → ℕ → Bool
tested_after_cutoff none days now = false
tested_after_cutoff (some time) days now = is_after_cutoff time days now

module _ {F : Type 0} where
  unfoldable pub is_eligible : Config F → ℕ → Problem → Bool
  is_eligible c now p =
      is_practiceable p
      && not
          (ltb 0 c.min_problem_age_days && is_after_cutoff p.created_at c.min_problem_age_days now)
      && not (tested_after_cutoff p.tracking.last_tested_at c.cooldown_days now)

  unfoldable pub get_eligible_problems : Config F → ℕ → List Problem → List Problem
  unfolding is_eligible
  get_eligible_problems c now [] = []
  get_eligible_problems c now (p ∷ ps) =
      let rest = get_eligible_problems c now ps in if is_eligible c now p then p ∷ rest else rest

pub record ScoreBreakdown (F : Type 0) : Type 0 where
  pub recency : F
  pub failure : F
  pub last_wrong : F
  pub total : F

module _ {F : Type 0} (float : Floats F) where
  abbrev zero_f : F
  zero_f = float.of_nat 0

  abbrev one_over : ℕ → F
  one_over n = float.div (float.of_nat 1) (float.of_nat n)

  abbrev half : F
  half = one_over 2

  -- `(now - then).days`: whole days, rounded down, also where they are negative.
  pub days_since : ℕ → ℕ → F
  days_since now then_ =
      if ltb now then_
      then float.neg (float.of_nat ((then_ - now + (day - 1)) / day))
      else float.of_nat ((now - then_) / day)

  abbrev daily_rate : Tracking → F
  daily_rate t = elim t.last_tested_at [
    | none ↦ one_over 20
    | some time ↦ elim t.last_attempt_correct [
      | none ↦ one_over 30
      | some correct ↦ if correct then one_over 40 else one_over 30
    ]
  ]

  abbrev base : Tracking → F
  base t = elim t.last_tested_at [
    | none ↦ float.of_nat 1
    | some time ↦ elim t.last_attempt_correct [
      | none ↦ zero_f
      | some correct ↦ if correct then zero_f else half
    ]
  ]

  abbrev reference : Problem → ℕ
  reference p = elim p.tracking.last_tested_at [ none ↦ p.created_at | some time ↦ time ]

  pub recency_score : Problem → ℕ → F
  recency_score p now =
      float.add (base p.tracking) (float.mul (days_since now (reference p)) (daily_rate p.tracking))

  -- The ratio where failures outnumber successes, else the signed root of the difference.
  pub failure_score : Tracking → F
  failure_score t =
      if ltb t.correct_count t.failed_count && ltb 0 t.correct_count
      then float.div (float.of_nat t.failed_count) (float.of_nat t.correct_count)
      else if t.failed_count == t.correct_count
      then zero_f
      else if ltb t.correct_count t.failed_count
      then float.sqrt (float.of_nat (t.failed_count - t.correct_count))
      else float.neg (float.sqrt (float.of_nat (t.correct_count - t.failed_count)))

  pub last_wrong_score : Tracking → F
  last_wrong_score t = elim t.last_tested_at [
    | none ↦ float.of_nat 1
    | some time ↦ elim t.last_attempt_correct [
      | none ↦ float.of_nat 1
      | some correct ↦ if correct then half else float.of_nat 2
    ]
  ]

  pub compute_score_breakdown : Config F → ℕ → Problem → ScoreBreakdown F
  compute_score_breakdown c now p =
      let recency = float.mul (recency_score p now) c.recency_weight in
      let failure = float.mul (failure_score p.tracking) c.failure_rate_weight in
      let last_wrong = float.mul (last_wrong_score p.tracking) c.last_wrong_weight in
      record {
        recency = recency;
        failure = failure;
        last_wrong = last_wrong;
        total = float.max zero_f (float.add (float.add recency failure) last_wrong);
      }
