-- ===== src/Assessment/Verdict.antt =====
-- The gate fails closed: what it takes to pass, and what a teacher may then still override.
use learn_loop.Prelude.{
  ℕ, Option, none, some, String, List, [], ◌∷◌, ◌++◌, Bool, true, false, ◌&&◌, ◌||◌, not, is_none,
  is_some, str_eq, is_truthy, or_blank, strip, ◌≡◌, refl, arith, all, if◌then◌else◌,
}
use learn_loop.Assessment.Failures.{Failure}
use learn_loop.Assessment.Reports.{
  VariantMode, Check, AnswerComparison, ValidatorReport, ProblemContent, VariantCandidate,
  VariantAssessment, AssessedVerdict, passing_check_values, has_graph, is_among,
}
use learn_loop.Assessment.Gate.{
  failure_if, is_data_only, is_equivalent_result, check_candidate, graph_failures, disagreement,
  disagreements, category_failures, all_category_failures, graph_check_failures,
  comparison_failures, assess_report, report_failures, verdict_on, assess_variant,
}

-- A candidate that fits its source: it has a text and an answer, keeps the problem's type and
-- subject, has a drawing that passes the safety check where the source has one and none elsewhere,
-- and in data-only mode changes the text.
abbrev pub candidate_conforms :
    (String → Option String) → VariantMode → ProblemContent → VariantCandidate → Bool
candidate_conforms sanitize mode source candidate =
    is_truthy (strip candidate.text)
    && is_truthy (strip candidate.correct_answer)
    && str_eq candidate.problem_type source.problem_type
    && str_eq candidate.subject source.subject
    && (if has_graph source.graph_dsl
        then has_graph candidate.graph_dsl
        else is_none candidate.graph_dsl)
    && (if has_graph candidate.graph_dsl
        then is_some (sanitize (or_blank candidate.graph_dsl))
        else true)
    && not (is_data_only mode && str_eq (strip candidate.text) (strip source.text))

abbrev pub is_complete : List (String × List String) → ValidatorReport → Bool
is_complete table report = all (λ row. is_some (report.checks row.0)) table

abbrev pub check_passes : List String → Option Check → Bool
check_passes passing none = false
check_passes passing (some check) = is_among check.category passing

abbrev pub graph_check_fits : Bool → Option Check → Bool
graph_check_fits drawn none = true
graph_check_fits drawn (some check) =
    if str_eq check.category "not-applicable" then not drawn else drawn

abbrev pub comparison_passes : Option AnswerComparison → Bool
comparison_passes none = true
comparison_passes (some comparison) = is_equivalent_result comparison.result

-- A report in which every required category is present with a passing value, the graph category
-- fits whether there is a drawing, both problems were solved, and no comparison that ran came out
-- other than equivalent.
abbrev pub report_conforms :
    VariantMode → ProblemContent → VariantCandidate → ValidatorReport → Bool
report_conforms mode source candidate report =
    all (λ row. check_passes row.1 (report.checks row.0)) (passing_check_values mode)
    && graph_check_fits (has_graph source.graph_dsl || has_graph candidate.graph_dsl)
        (report.checks "graphConsistency")
    && is_some report.original_solved_answer
    && is_some report.variant_solved_answer
    && comparison_passes report.answer_comparison_original
    && comparison_passes report.answer_comparison_variant

abbrev pub same_category : Option Check → Option Check → Bool
same_category (some one) (some two) = str_eq one.category two.category
same_category _ _ = true

abbrev pub reports_agree : VariantMode → ValidatorReport → ValidatorReport → Bool
reports_agree mode one two =
    all (λ row. same_category (one.checks row.0) (two.checks row.0)) (passing_check_values mode)

-- One report that conforms, or two that do and agree on every category.
abbrev pub reports_conform :
    VariantMode → ProblemContent → VariantCandidate → List ValidatorReport → Bool
reports_conform mode source candidate (one ∷ []) = report_conforms mode source candidate one
reports_conform mode source candidate (one ∷ two ∷ []) =
    reports_agree mode one two
    && report_conforms mode source candidate one
    && report_conforms mode source candidate two
reports_conform mode source candidate _ = false

abbrev pub no_failures : List Failure → Bool
no_failures [] = true
no_failures (f ∷ fs) = false

abbrev pub is_pass : VariantAssessment → Bool
is_pass a = elim a.verdict [ AssessedVerdict.passed ↦ true | AssessedVerdict.failed ↦ false ]

no_failures-append :
    (fs gs : List Failure) → no_failures (fs ++ gs) ≡ (no_failures fs && no_failures gs)
no_failures-append [] gs = refl
no_failures-append (f ∷ fs) gs = refl

pub graph-none :
    (s c : Option String)
    → no_failures (graph_failures s c) ≡ (if has_graph s then has_graph c else is_none c)
unfolding has_graph
graph-none s none = ground arith
graph-none s (some c) = ground arith

if-none : (b : Bool) (f : Failure) → no_failures (failure_if b f) ≡ not b
if-none true f = refl
if-none false f = refl

candidate-none :
    (sanitize : String → Option String) (explain : String → List String) (mode : VariantMode)
    (source : ProblemContent) (candidate : VariantCandidate)
    → no_failures (check_candidate sanitize explain mode source candidate)
      ≡ candidate_conforms sanitize mode source candidate
unfolding check_candidate
candidate-none sanitize explain mode source candidate =
    rw
      (
        no_failures-append, no_failures-append, no_failures-append, no_failures-append,
        no_failures-append, no_failures-append, if-none, if-none, if-none, if-none, if-none,
        if-none, graph-none,
      )
      (ground arith)

categories-none :
    (table : List (String × List String)) (report : ValidatorReport)
    → no_failures (all_category_failures table report)
      ≡ all (λ row. check_passes row.1 (report.checks row.0)) table
unfolding all_category_failures
categories-none [] report = refl
categories-none ((name, passing) ∷ table) report = ground (
  arith,
  no_failures-append (category_failures name passing (report.checks name))
      (all_category_failures table report),
  categories-none table report,
)

disagreements-none :
    (table : List (String × List String)) (one two : ValidatorReport)
    → no_failures (disagreements table one two)
      ≡ all (λ row. same_category (one.checks row.0) (two.checks row.0)) table
unfolding disagreements
disagreements-none [] one two = refl
disagreements-none ((name, passing) ∷ table) one two = ground (
  arith,
  no_failures-append (disagreement name (one.checks name) (two.checks name))
      (disagreements table one two),
  disagreements-none table one two,
)

graph_check-none :
    (c : Option Check) (s d : Bool)
    → no_failures (graph_check_failures c s d) ≡ graph_check_fits (s || d) c
graph_check-none c s d = ground arith

comparison-none :
    (side : String) (c : Option AnswerComparison)
    → no_failures (comparison_failures side c) ≡ comparison_passes c
comparison-none side c = ground arith

report-none :
    (mode : VariantMode) (source : ProblemContent) (candidate : VariantCandidate)
    (report : ValidatorReport)
    → no_failures (assess_report mode source candidate report)
      ≡ report_conforms mode source candidate report
unfolding assess_report
report-none mode source candidate report =
    rw
      (
        no_failures-append, no_failures-append, no_failures-append, no_failures-append,
        categories-none, graph_check-none, if-none, comparison-none, comparison-none,
      )
      (ground arith)

reports-none :
    (str_nat : ℕ → String) (mode : VariantMode) (source : ProblemContent)
    (candidate : VariantCandidate) (reports : List ValidatorReport)
    → no_failures (report_failures str_nat mode source candidate reports)
      ≡ reports_conform mode source candidate reports
unfolding report_failures
reports-none str_nat mode source candidate [] = refl
reports-none str_nat mode source candidate (one ∷ []) = report-none mode source candidate one
reports-none str_nat mode source candidate (one ∷ two ∷ []) =
    rw (no_failures-append, no_failures-append, disagreements-none, report-none, report-none) refl
reports-none str_nat mode source candidate (one ∷ two ∷ three ∷ more) = refl

verdict_on-none : (fs : List Failure) → is_pass (verdict_on fs) ≡ no_failures fs
verdict_on-none [] = refl
verdict_on-none (f ∷ fs) = refl

-- A variant passes exactly when its candidate fits its source, and there are one or two reports,
-- each of which conforms, and which agree if they are two. In particular no report, a third report,
-- a missing category, an unsolved problem, or a comparison that ran and is not equivalent fails it.
pub assess_variant-is_pass :
    (sanitize : String → Option String) (explain : String → List String) (str_nat : ℕ → String)
    (mode : VariantMode) (source : ProblemContent) (candidate : VariantCandidate)
    (reports : List ValidatorReport)
    → is_pass (assess_variant sanitize explain str_nat mode source candidate reports) ≡ (
        candidate_conforms sanitize mode source candidate
        && reports_conform mode source candidate reports)
unfolding assess_variant
assess_variant-is_pass sanitize explain str_nat mode source candidate reports =
    rw (verdict_on-none, no_failures-append, candidate-none, reports-none) refl
