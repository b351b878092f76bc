-- ===== src/Assessment/Exclusive.antt =====
-- A stored record is never both attestable by the user and free of any validator's verdict.
use learn_loop.Prelude.{
  ◌≡◌, refl, some, String, List, [], ◌∷◌, Bool, true, false, arith, eq_iff, str_eq, inl, inr,
  Bool-cases, not, ◌&&◌, if◌then◌else◌, Option-cases, ◌⊎◌, ◌||◌, all,
}
use learn_loop.Assessment.Failures.{
  has_verdict, is_empty_list, Validation, StoredFailure, is_overridable, is_execution_kind,
  is_attestable, is_execution_only_failure,
}

-- The two kinds that a user may override, as texts.
overridable_cases :
    (k : String) → (str_eq k "check" || str_eq k "answer") ≡ true → (k ≡ "check") ⊎ (k ≡ "answer")
overridable_cases k h = ground (arith, eq_iff k "check", eq_iff k "answer")

kind_exclusive : (f : StoredFailure) → is_overridable f ≡ true → is_execution_kind f ≡ false
unfolding is_overridable is_execution_kind
kind_exclusive f h = elim (Option-cases f.kind) [
  | inl e ↦ rw e
  | inr (k, e) ↦ rw e (elim (overridable_cases k (ground arith)) [ inl c ↦ rw c | inr a ↦ rw a ])
]

pub pass-ne-fail : (v : Validation) → has_verdict "pass" v ≡ true → has_verdict "fail" v ≡ false
pass-ne-fail v h = elim (Option-cases v.verdict) [
  | inl e ↦ rw e
  | inr (s, e) ↦ rw e (let p : s ≡ "pass" = (eq_iff s "pass").0 (rw e at h) in rw p)
]

-- A record that the user may attest is never one that a re-validation may replace as a failure of
-- the model's execution only.
pub attestable_exclusive :
    (v : Validation) → is_attestable (some v) ≡ true → is_execution_only_failure (some v) ≡ false
unfolding is_attestable is_execution_only_failure
attestable_exclusive v h = elim (Bool-cases (has_verdict "pass" v)) [
  | inl p ↦ rw (pass-ne-fail v p)
  | inr n ↦ exclusive_failures v.failures (has_verdict "fail" v) (rw n at h)
]
  where
    exclusive_failures :
        (fs : List StoredFailure) (b : Bool)
        → (if b then not (is_empty_list fs) && all is_overridable fs else false) ≡ true
        → (if b then (if is_empty_list fs then false else all is_execution_kind fs) else false)
          ≡ false
    exclusive_failures fs false e = refl
    exclusive_failures [] true e = refl
    exclusive_failures (f ∷ fs) true e = ground (arith, kind_exclusive f)
