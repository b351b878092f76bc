-- ===== src/Assessment/Reports.antt =====
-- What the gate reads: contents, candidates, validator reports, and the passing values of a mode
-- (backend/app/domain/ingestion/variation.py).
use learn_loop.Prelude.{
  Option, String, List, [], ◌∷◌, ◌++◌, Bool, str_eq, any, is_truthy, or_blank, strip,
}
use learn_loop.Assessment.Failures.{FailureKind, Failure}

pub data VariantMode : Type 0 where
  data_only transfer_variant data_and_wording : VariantMode

pub data ComparisonResult : Type 0 where
  equivalent different uncertain : ComparisonResult

pub record Check : Type 0 where
  pub category : String
  pub evidence : String

pub record AnswerComparison : Type 0 where
  pub result : ComparisonResult
  pub evidence : String

-- The fields of a report that the gate reads; `checks` is the dictionary.
pub record ValidatorReport : Type 0 where
  pub original_solved_answer : Option String
  pub variant_solved_answer : Option String
  pub checks : String → Option Check
  pub answer_comparison_original : Option AnswerComparison
  pub answer_comparison_variant : Option AnswerComparison

pub record ProblemContent : Type 0 where
  pub text : String
  pub problem_type : String
  pub subject : String
  pub graph_dsl : Option String
  pub correct_answer : String

-- A candidate without its generator.
pub record VariantCandidate : Type 0 where
  pub text : String
  pub problem_type : String
  pub subject : String
  pub graph_dsl : Option String
  pub correct_answer : String

pub data AssessedVerdict : Type 0 where
  passed failed : AssessedVerdict

pub record VariantAssessment : Type 0 where
  pub verdict : AssessedVerdict
  pub failures : List Failure

abbrev pub comparison_name : ComparisonResult → String
comparison_name equivalent = "equivalent"
comparison_name different = "different"
comparison_name uncertain = "uncertain"

abbrev pub content_failure : String → Failure
content_failure evidence = record { kind = FailureKind.content; evidence = evidence }

abbrev pub check_failure : String → Failure
check_failure evidence = record { kind = FailureKind.check; evidence = evidence }

abbrev pub answer_failure : String → Failure
answer_failure evidence = record { kind = FailureKind.answer; evidence = evidence }

-- `PASSING_CHECK_VALUES`, in the order of the dictionary.
abbrev pub base_passing_values : List (String × List String)
base_passing_values =
    ("originalWellPosed", "yes" ∷ [])
    ∷ ("variantWellPosed", "yes" ∷ [])
    ∷ ("coreKnowledge", "preserved" ∷ [])
    ∷ ("solutionStructure", "preserved" ∷ [])
    ∷ ("quantityRoles", "preserved" ∷ [])
    ∷ ("difficultyShift", "comparable" ∷ [])
    ∷ ("numericComplexityShift", "comparable" ∷ [])
    ∷ ("representationShift", "none-or-nonmaterial" ∷ [])
    ∷ ("modeCompliance", "compliant" ∷ [])
    ∷ ("graphConsistency", "consistent" ∷ "not-applicable" ∷ [])
    ∷ ("dataChange", "changed" ∷ [])
    ∷ []

-- `TRANSFER_VARIANT_PASSING_CHECKS`
abbrev pub transfer_passing_values : List (String × List String)
transfer_passing_values = base_passing_values ++ (("surfaceDivergence", "substantial" ∷ []) ∷ [])

pub passing_check_values : VariantMode → List (String × List String)
passing_check_values transfer_variant = transfer_passing_values
passing_check_values data_and_wording = transfer_passing_values
passing_check_values data_only = base_passing_values

-- `bool((dsl or "").strip())`
unfoldable pub has_graph : Option String → Bool
unfolding strip
has_graph dsl = is_truthy (strip (or_blank dsl))

-- `value in values`
abbrev pub is_among : String → List String → Bool
is_among value values = any (λ v. str_eq v value) values
