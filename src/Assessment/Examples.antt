-- ===== src/Assessment/Examples.antt =====
-- A stored validation that its user may attest, and a variant before the gate.
use learn_loop.Prelude.{
  ◌≡◌, Option, some, none, [], ◌∷◌, String, List, ◌&&◌, ℕ, str_eq, if◌then◌else◌,
}
use learn_loop.Assessment.Failures.{Validation, is_attestable}
use learn_loop.Assessment.Reports.{
  VariantMode, Check, ValidatorReport, ProblemContent, VariantCandidate,
}
use learn_loop.Assessment.Gate.{assess_variant, serialize_assessment}
use learn_loop.Assessment.Verdict.{
  candidate_conforms, reports_conform, is_pass, assess_variant-is_pass,
}
use learn_loop.Assessment.Override.{reports_complete, assess_variant-is_attestable}

abbrev wrong_answer : Validation
wrong_answer = record {
  verdict = some "fail";
  failures = record { kind = some "answer"; evidence = "the answers differ" } ∷ [];
}

abbrev source_problem : ProblemContent
source_problem = record {
  text = "What is 2 + 2?";
  problem_type = "short-answer";
  subject = "math";
  graph_dsl = none;
  correct_answer = "4";
}

abbrev candidate_problem : VariantCandidate
candidate_problem = record {
  text = "What is 3 + 3?";
  problem_type = "short-answer";
  subject = "math";
  graph_dsl = none;
  correct_answer = "6";
}

-- A validator that found the variant too hard.
abbrev hard_checks : String → Option Check
hard_checks name =
    if str_eq name "difficultyShift"
    then some (record { category = "materially-harder"; evidence = "larger numbers" })
    else some (record { category = "yes"; evidence = "" })

abbrev strict_report : ValidatorReport
strict_report = record {
  original_solved_answer = some "4";
  variant_solved_answer = some "6";
  checks = hard_checks;
  answer_comparison_original = none;
  answer_comparison_variant = none;
}

abbrev keep : String → Option String
keep dsl = some dsl

abbrev no_reasons : String → List String
no_reasons dsl = []

abbrev some_number : ℕ → String
some_number n = "several"

gate_example :
    is_pass (
      assess_variant keep no_reasons some_number VariantMode.data_only source_problem
        candidate_problem
        (strict_report ∷ []))
    ≡ (candidate_conforms keep VariantMode.data_only source_problem candidate_problem
        && reports_conform VariantMode.data_only source_problem candidate_problem
            (strict_report ∷ []))
gate_example =
    assess_variant-is_pass keep no_reasons some_number VariantMode.data_only source_problem
      candidate_problem (strict_report ∷ [])

override_example :
    is_attestable (
      some (
        serialize_assessment (
          assess_variant keep no_reasons some_number VariantMode.data_only source_problem
            candidate_problem
            (strict_report ∷ []))))
    ≡ (candidate_conforms keep VariantMode.data_only source_problem candidate_problem
        && reports_complete VariantMode.data_only (strict_report ∷ []))
override_example =
    assess_variant-is_attestable keep no_reasons some_number VariantMode.data_only source_problem
      candidate_problem (strict_report ∷ [])
