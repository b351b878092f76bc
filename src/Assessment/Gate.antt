-- ===== src/Assessment/Gate.antt =====
-- The gate of backend/app/domain/ingestion/variation.py. The cleaning of a drawing
-- (`sanitize_whiteboard_dsl`), its explanation and the printing of a number are parameters.
use learn_loop.Prelude.{
  ℕ, Option, none, some, String, List, [], ◌∷◌, ◌++◌, Bool, true, false, ◌&&◌, ◌||◌, not, is_none,
  str_eq, if◌then◌else◌, is_truthy, or_blank, strip, f_string, length,
}
use learn_loop.Assessment.Failures.{Failure, StoredFailure, Validation, kind_name}
use learn_loop.Assessment.Reports.{
  VariantMode, ComparisonResult, Check, AnswerComparison, ValidatorReport, ProblemContent,
  VariantCandidate, VariantAssessment, passed, failed, comparison_name, content_failure,
  check_failure, answer_failure, passing_check_values, has_graph, is_among,
}

-- `if b: failures.append(f)`
abbrev pub failure_if : Bool → Failure → List Failure
failure_if b f = if b then f ∷ [] else []

abbrev pub is_data_only : VariantMode → Bool
is_data_only mode = elim mode [ VariantMode.data_only ↦ true | _ ↦ false ]

-- `"; ".join(parts)`
pub joined : List String → String
joined [] = ""
joined (s ∷ []) = s
joined (s ∷ t ∷ parts) = f_string (s ∷ "; " ∷ joined (t ∷ parts) ∷ [])

-- The three branches on the presence of a drawing, and its safety check.
abbrev pub graph_failures : Option String → Option String → List Failure
graph_failures source candidate =
    if not (is_none candidate) && not (has_graph candidate)
    then content_failure "candidate graphDsl is present but empty" ∷ []
    else if has_graph source && not (has_graph candidate)
    then content_failure "candidate graphDsl is missing but the source problem has a graph" ∷ []
    else failure_if (has_graph candidate && not (has_graph source))
        (content_failure "candidate graphDsl is set but the source problem has no graph")

abbrev pub safety_failures :
    (String → Option String) → (String → List String) → Option String → List Failure
safety_failures sanitize explain candidate =
    failure_if (has_graph candidate && is_none (sanitize (or_blank candidate))) (
      content_failure (
        f_string (
          "candidate graphDsl failed the safety check and was not accepted: "
          ∷ joined (explain (or_blank candidate))
          ∷ [])))

unfoldable pub check_candidate :
    (String → Option String)
    → (String → List String)
    → VariantMode
    → ProblemContent
    → VariantCandidate
    → List Failure
unfolding joined has_graph
check_candidate sanitize explain mode source candidate =
    failure_if (not (is_truthy (strip candidate.text))) (content_failure "candidate text is empty")
    ++ failure_if (not (is_truthy (strip candidate.correct_answer)))
        (content_failure "candidate correctAnswer is empty")
    ++ failure_if (not (str_eq candidate.problem_type source.problem_type)) (
        content_failure (
          f_string (
            "problemType mismatch: source '" ∷ source.problem_type ∷ "', candidate returned '"
            ∷ candidate.problem_type ∷ "'" ∷ [])))
    ++ failure_if (not (str_eq candidate.subject source.subject)) (
        content_failure (
          f_string (
            "subject mismatch: source '" ∷ source.subject ∷ "', candidate returned '"
            ∷ candidate.subject ∷ "'" ∷ [])))
    ++ graph_failures source.graph_dsl candidate.graph_dsl
    ++ safety_failures sanitize explain candidate.graph_dsl
    ++ failure_if (is_data_only mode && str_eq (strip candidate.text) (strip source.text))
        (content_failure "dataChange: candidate data is unchanged from the source")

-- One turn of the loop of `_category_disagreements`.
abbrev pub disagreement : String → Option Check → Option Check → List Failure
disagreement name none two = []
disagreement name (some one) none = []
disagreement name (some one) (some two) = failure_if (not (str_eq one.category two.category)) (
    check_failure (
      f_string (
        "validators disagree on " ∷ name ∷ ": '" ∷ one.category ∷ "' vs '" ∷ two.category ∷ "'"
        ∷ [])))

unfoldable pub disagreements :
    List (String × List String) → ValidatorReport → ValidatorReport → List Failure
disagreements [] first second = []
disagreements ((name, passing) ∷ rest) first second =
    disagreement name (first.checks name) (second.checks name) ++ disagreements rest first second

-- One turn of the loop of `_assess_report` over the categories.
abbrev pub category_failures : String → List String → Option Check → List Failure
category_failures name passing none =
    content_failure (f_string (name ∷ ": missing report category" ∷ [])) ∷ []
category_failures name passing (some check) =
    failure_if (not (is_among check.category passing))
      (check_failure (f_string (name ∷ ": " ∷ check.category ∷ " - " ∷ check.evidence ∷ [])))

unfoldable pub all_category_failures : List (String × List String) → ValidatorReport → List Failure
all_category_failures [] report = []
all_category_failures ((name, passing) ∷ rest) report =
    category_failures name passing (report.checks name) ++ all_category_failures rest report

abbrev pub graph_check_failures : Option Check → Bool → Bool → List Failure
graph_check_failures none source_has_graph candidate_has_graph = []
graph_check_failures (some check) source_has_graph candidate_has_graph =
    if str_eq check.category "not-applicable"
    then failure_if (source_has_graph || candidate_has_graph)
        (check_failure "graphConsistency: not-applicable is invalid because a graph is present")
    else failure_if (not source_has_graph && not candidate_has_graph) (
        check_failure (
          f_string (
            "graphConsistency: " ∷ check.category
            ∷ " is invalid because neither problem has a graph; only not-applicable applies" ∷ [])))

abbrev pub is_equivalent_result : ComparisonResult → Bool
is_equivalent_result r = elim r [ ComparisonResult.equivalent ↦ true | _ ↦ false ]

abbrev pub comparison_failures : String → Option AnswerComparison → List Failure
comparison_failures side none = []
comparison_failures side (some comparison) =
    failure_if (not (is_equivalent_result comparison.result)) (
      answer_failure (
        f_string (
          "helper comparison for "
          ∷ side
          ∷ " answer: "
          ∷ comparison_name comparison.result
          ∷ " - "
          ∷ comparison.evidence
          ∷ [])))

unfoldable pub assess_report :
    VariantMode → ProblemContent → VariantCandidate → ValidatorReport → List Failure
unfolding all_category_failures has_graph
assess_report mode source candidate report =
    all_category_failures (passing_check_values mode) report
    ++ graph_check_failures (report.checks "graphConsistency") (has_graph source.graph_dsl)
        (has_graph candidate.graph_dsl)
    ++ failure_if (is_none report.original_solved_answer || is_none report.variant_solved_answer) (
        answer_failure
          "validator could not solve one of the problems; no helper comparison is possible")
    ++ comparison_failures "original" report.answer_comparison_original
    ++ comparison_failures "variant" report.answer_comparison_variant

-- What the reports contribute, by their number.
unfoldable pub report_failures :
    (ℕ → String)
    → VariantMode
    → ProblemContent
    → VariantCandidate
    → List ValidatorReport
    → List Failure
unfolding assess_report disagreements
report_failures str_nat mode source candidate [] =
    content_failure "no validator report was produced"
    ∷ content_failure (f_string ("expected 1 or 2 validator reports, received " ∷ str_nat 0 ∷ []))
    ∷ []
report_failures str_nat mode source candidate (one ∷ []) = assess_report mode source candidate one
report_failures str_nat mode source candidate (one ∷ two ∷ []) =
    disagreements (passing_check_values mode) one two
    ++ assess_report mode source candidate one
    ++ assess_report mode source candidate two
report_failures str_nat mode source candidate (one ∷ two ∷ three ∷ more) =
    content_failure (
      f_string (
        "expected 1 or 2 validator reports, received "
        ∷ str_nat (length (one ∷ two ∷ three ∷ more))
        ∷ []))
    ∷ []

abbrev pub verdict_on : List Failure → VariantAssessment
verdict_on [] = record { verdict = passed; failures = [] }
verdict_on (f ∷ fs) = record { verdict = failed; failures = f ∷ fs }

unfoldable pub assess_variant :
    (String → Option String)
    → (String → List String)
    → (ℕ → String)
    → VariantMode
    → ProblemContent
    → VariantCandidate
    → List ValidatorReport
    → VariantAssessment
unfolding check_candidate report_failures
assess_variant sanitize explain str_nat mode source candidate reports = verdict_on (
    check_candidate sanitize explain mode source candidate
    ++ report_failures str_nat mode source candidate reports)

-- What `serialize_generation_result` stores of an assessment.
abbrev verdict_name : VariantAssessment → String
verdict_name a = elim a.verdict [ passed ↦ "pass" | failed ↦ "fail" ]

unfoldable pub stored_failures : List Failure → List StoredFailure
stored_failures [] = []
stored_failures (f ∷ fs) =
    record { kind = some (kind_name f.kind); evidence = f.evidence } ∷ stored_failures fs

unfoldable pub serialize_assessment : VariantAssessment → Validation
unfolding stored_failures
serialize_assessment a = record {
  verdict = some (verdict_name a);
  failures = stored_failures a.failures;
}
