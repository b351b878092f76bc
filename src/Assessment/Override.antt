-- ===== src/Assessment/Override.antt =====
-- What a teacher may override: the judgments of a validator, never a defect of the content.
use learn_loop.Prelude.{
  ℕ, Option, none, some, String, List, [], ◌∷◌, Bool, true, false, ◌&&◌, not, is_some, ◌≡◌, refl,
  arith, all, all-append,
}
use learn_loop.Assessment.Failures.{Failure, FailureKind, kind_name, is_attestable, is_overridable}
use learn_loop.Assessment.Reports.{
  VariantMode, Check, AnswerComparison, ValidatorReport, ProblemContent, VariantCandidate,
  passing_check_values, content_failure, check_failure, answer_failure,
}
use learn_loop.Assessment.Gate.{
  failure_if, check_candidate, graph_failures, disagreement, disagreements, category_failures,
  all_category_failures, graph_check_failures, comparison_failures, assess_report, report_failures,
  verdict_on, assess_variant, stored_failures, serialize_assessment,
}
use learn_loop.Assessment.Verdict.{candidate_conforms, is_complete, no_failures, graph-none}

abbrev pub can_override : Failure → Bool
can_override f = elim f.kind [ FailureKind.check ↦ true | FailureKind.answer ↦ true | _ ↦ false ]

-- One or two reports in which no required category is missing.
abbrev pub reports_complete : VariantMode → List ValidatorReport → Bool
reports_complete mode (one ∷ []) = is_complete (passing_check_values mode) one
reports_complete mode (one ∷ two ∷ []) =
    is_complete (passing_check_values mode) one && is_complete (passing_check_values mode) two
reports_complete mode _ = false

content-if : (b : Bool) (e : String) → all can_override (failure_if b (content_failure e)) ≡ not b
content-if true e = refl
content-if false e = refl

check-if : (b : Bool) (e : String) → all can_override (failure_if b (check_failure e)) ≡ true
check-if true e = refl
check-if false e = refl

answer-if : (b : Bool) (e : String) → all can_override (failure_if b (answer_failure e)) ≡ true
answer-if true e = refl
answer-if false e = refl

graph-override :
    (s c : Option String) → all can_override (graph_failures s c) ≡ no_failures (graph_failures s c)
graph-override s c = ground arith

candidate-override :
    (sanitize : String → Option String) (explain : String → List String) (mode : VariantMode)
    (source : ProblemContent) (candidate : VariantCandidate)
    → all can_override (check_candidate sanitize explain mode source candidate)
      ≡ candidate_conforms sanitize mode source candidate
unfolding check_candidate
candidate-override sanitize explain mode source candidate =
    rw
      (
        all-append, all-append, all-append, all-append, all-append, all-append, content-if,
        content-if, content-if, content-if, content-if, content-if, graph-override, graph-none,
      )
      (ground arith)

category-override :
    (name : String) (passing : List String) (c : Option Check)
    → all can_override (category_failures name passing c) ≡ is_some c
category-override name passing none = refl
category-override name passing (some c) = check-if _ _

categories-override :
    (table : List (String × List String)) (report : ValidatorReport)
    → all can_override (all_category_failures table report) ≡ is_complete table report
unfolding all_category_failures
categories-override [] report = refl
categories-override ((name, passing) ∷ table) report =
    rw (all-append, category-override, categories-override table report) refl

disagreement-override :
    (name : String) (one two : Option Check) → all can_override (disagreement name one two) ≡ true
disagreement-override name none two = refl
disagreement-override name (some one) none = refl
disagreement-override name (some one) (some two) = check-if _ _

disagreements-override :
    (table : List (String × List String)) (one two : ValidatorReport)
    → all can_override (disagreements table one two) ≡ true
unfolding disagreements
disagreements-override [] one two = refl
disagreements-override ((name, passing) ∷ table) one two =
    rw (all-append, disagreement-override, disagreements-override table one two) refl

graph_check-override :
    (c : Option Check) (s d : Bool) → all can_override (graph_check_failures c s d) ≡ true
graph_check-override c s d = ground arith

comparison-override :
    (side : String) (c : Option AnswerComparison)
    → all can_override (comparison_failures side c) ≡ true
comparison-override side none = refl
comparison-override side (some c) = answer-if _ _

report-override :
    (mode : VariantMode) (source : ProblemContent) (candidate : VariantCandidate)
    (report : ValidatorReport)
    → all can_override (assess_report mode source candidate report)
      ≡ is_complete (passing_check_values mode) report
unfolding assess_report
report-override mode source candidate report =
    rw
      (
        all-append, all-append, all-append, all-append, categories-override, graph_check-override,
        answer-if, comparison-override, comparison-override,
      )
      (ground arith)

reports-override :
    (str_nat : ℕ → String) (mode : VariantMode) (source : ProblemContent)
    (candidate : VariantCandidate) (reports : List ValidatorReport)
    → all can_override (report_failures str_nat mode source candidate reports)
      ≡ reports_complete mode reports
unfolding report_failures
reports-override str_nat mode source candidate [] = refl
reports-override str_nat mode source candidate (one ∷ []) =
    report-override mode source candidate one
reports-override str_nat mode source candidate (one ∷ two ∷ []) =
    rw (all-append, all-append, disagreements-override, report-override, report-override) refl
reports-override str_nat mode source candidate (one ∷ two ∷ three ∷ more) = refl

kind-override :
    (k : FailureKind) (e : String)
    → is_overridable (record { kind = some (kind_name k); evidence = e })
      ≡ can_override (record { kind = k; evidence = e })
unfolding is_overridable
kind-override FailureKind.content e = refl
kind-override FailureKind.check e = refl
kind-override FailureKind.answer e = refl
kind-override FailureKind.provider e = refl
kind-override FailureKind.invalid_response e = refl

stored-override :
    (fs : List Failure) → all is_overridable (stored_failures fs) ≡ all can_override fs
unfolding stored_failures
stored-override [] = refl
stored-override (f ∷ fs) = rw (kind-override f.kind f.evidence, stored-override fs) refl

serialized-override :
    (fs : List Failure)
    → is_attestable (some (serialize_assessment (verdict_on fs))) ≡ all can_override fs
unfolding is_attestable serialize_assessment
serialized-override [] = refl
serialized-override (f ∷ fs) = stored-override (f ∷ fs)

-- What the gate stores of a variant may be attested by a teacher exactly when its candidate fits
-- its source and its one or two reports are complete, whatever the validators judged: a defect of
-- the content and a missing piece of evidence are never overridden.
pub assess_variant-is_attestable :
    (sanitize : String → Option String) (explain : String → List String) (str_nat : ℕ → String)
    (mode : VariantMode) (source : ProblemContent) (candidate : VariantCandidate)
    (reports : List ValidatorReport)
    → is_attestable (
        some (
          serialize_assessment
            (assess_variant sanitize explain str_nat mode source candidate reports)))
      ≡ (candidate_conforms sanitize mode source candidate && reports_complete mode reports)
unfolding assess_variant
assess_variant-is_attestable sanitize explain str_nat mode source candidate reports =
    rw (serialized-override, all-append, candidate-override, reports-override) refl
