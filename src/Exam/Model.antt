-- ===== src/Exam/Model.antt =====
-- The documents of exams and problems, as far as grading reads and writes them. Identifiers and
-- times are numbers; a float that is only ever 0.0 or 1.0 is the number 0 or 1.
use learn_loop.Prelude.{ℕ, Option, none, some, String, List, Bool, true, false, ◌==◌}
use learn_loop.States.{ExamState, exam_code}

pub data ProblemType : Type 0 where
  single_choice multi_choice fill_in_the_blank short_answer : ProblemType

pub data GradingStatus : Type 0 where
  ungraded correct incorrect pending_review : GradingStatus

pub record CorrectAnswer : Type 0 where
  pub display : String
  pub normalized_text : String
  pub normalized_set : List String

pub record ProblemSnapshot : Type 0 where
  pub text : String
  pub problem_type : ProblemType
  pub correct_answer : CorrectAnswer

-- A raw response of the provider, printed: a JSON object, or a text that is none.
pub data RawResponse : Type 0 where
  json_object plain_text : String → RawResponse

-- `Optional[Dict[str, Any]]`
abbrev pub is_document : Option RawResponse → Bool
is_document none = true
is_document (some (json_object d)) = true
is_document (some (plain_text t)) = false

-- `build_grading_result`
pub record Grading : Type 0 where
  pub status : GradingStatus
  pub method : Option String
  pub is_correct : Option Bool
  pub score : Option ℕ
  pub feedback : Option String
  pub provider_model : Option String
  pub raw_provider_response : Option RawResponse
  pub graded_at : Option ℕ
  pub retry_count : ℕ
  pub self_reported_correct : Option Bool

pub record ExamItem : Type 0 where
  pub item_id : String
  pub problem_id : ℕ
  pub snapshot : ProblemSnapshot
  pub answer_raw : Option String
  pub grading : Grading

-- The score is the pair of `correct` and `graded`, whose quotient the code stores.
pub record Summary : Type 0 where
  pub total : ℕ
  pub answered : ℕ
  pub graded : ℕ
  pub pending : ℕ
  pub correct : ℕ
  pub failed : ℕ
  pub score : Option (ℕ × ℕ)

pub record Exam : Type 0 where
  pub user_id : ℕ
  pub state : ExamState
  pub items : List ExamItem
  pub summary : Summary
  pub submitted_at : Option ℕ
  pub discarded_at : Option ℕ
  pub updated_at : ℕ

pub record Tracking : Type 0 where
  pub exposure_count : ℕ
  pub correct_count : ℕ
  pub failed_count : ℕ
  pub last_tested_at : Option ℕ
  pub last_attempt_correct : Option Bool

abbrev pub status_is : GradingStatus → Grading → Bool
status_is GradingStatus.ungraded g = elim g.status [ GradingStatus.ungraded ↦ true | _ ↦ false ]
status_is GradingStatus.correct g = elim g.status [ GradingStatus.correct ↦ true | _ ↦ false ]
status_is GradingStatus.incorrect g = elim g.status [ GradingStatus.incorrect ↦ true | _ ↦ false ]
status_is GradingStatus.pending_review g = elim g.status [
  | GradingStatus.pending_review ↦ true
  | _ ↦ false
]

-- `TERMINAL_GRADING_STATUSES`
abbrev pub is_terminal : Grading → Bool
is_terminal g = elim g.status [ GradingStatus.ungraded ↦ false | _ ↦ true ]

abbrev pub in_state : ExamState → Exam → Bool
in_state x e = exam_code e.state == exam_code x

abbrev pub ungraded_grading : Grading
ungraded_grading = record {
  status = GradingStatus.ungraded;
  method = none;
  is_correct = none;
  score = none;
  feedback = none;
  provider_model = none;
  raw_provider_response = none;
  graded_at = none;
  retry_count = 0;
  self_reported_correct = none;
}
