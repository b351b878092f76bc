-- ===== src/Assessment/Failures.antt =====
-- Failure kinds, stored validation records and the two questions asked of them.
use learn_loop.Prelude.{
  Option, none, some, String, List, [], ◌∷◌, Bool, true, false, ◌||◌, ◌&&◌, not, str_eq, all,
  if◌then◌else◌,
}
use text.Mathlib.Text.{starts_with}

-- `Literal["content", "check", "answer", "provider", "invalid-response"]`
pub data FailureKind : Type 0 where
  content check answer provider invalid_response : FailureKind

abbrev pub kind_name : FailureKind → String
kind_name FailureKind.content = "content"
kind_name FailureKind.check = "check"
kind_name FailureKind.answer = "answer"
kind_name FailureKind.provider = "provider"
kind_name FailureKind.invalid_response = "invalid-response"

-- `AssessmentFailure`
pub record Failure : Type 0 where
  pub kind : FailureKind
  pub evidence : String

-- A failure as it is stored: legacy entries have no kind, and the worker stores raw codes.
pub record StoredFailure : Type 0 where
  pub kind : Option String
  pub evidence : String

-- A stored validation record: the keys that are read back (`verdict`, `failures`).
pub record Validation : Type 0 where
  pub verdict : Option String
  pub failures : List StoredFailure

abbrev pub has_verdict : String → Validation → Bool
has_verdict name v = elim v.verdict [ none ↦ false | some s ↦ str_eq s name ]

-- `failure.get("kind") in ("check", "answer")`
unfoldable pub is_overridable : StoredFailure → Bool
is_overridable f = elim f.kind [ none ↦ false | some k ↦ str_eq k "check" || str_eq k "answer" ]

-- The kinds of a run in which the model gave no verdict.
unfoldable pub is_execution_kind : StoredFailure → Bool
is_execution_kind f = elim f.kind [
  | none ↦ false
  | some k ↦ str_eq k "provider" || str_eq k "invalid-response" || starts_with k "vlm-"
]

abbrev pub is_empty_list : List StoredFailure → Bool
is_empty_list [] = true
is_empty_list (_ ∷ _) = false

unfoldable pub is_attestable : Option Validation → Bool
unfolding is_overridable
is_attestable none = false
is_attestable (some v) =
    if has_verdict "pass" v
    then true
    else if has_verdict "fail" v
    then not (is_empty_list v.failures) && all is_overridable v.failures
    else false

unfoldable pub is_execution_only_failure : Option Validation → Bool
unfolding is_execution_kind
is_execution_only_failure none = false
is_execution_only_failure (some v) =
    if has_verdict "fail" v
    then (if is_empty_list v.failures then false else all is_execution_kind v.failures)
    else false
