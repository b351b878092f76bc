-- ===== src/Variants/Drafts.antt =====
-- The semantic content of a problem draft, and when an edit changes it (problem_variation.py).
use learn_loop.Prelude.{
  Option, none, some, String, Bool, true, false, ◌&&◌, not, str_eq, is_truthy, without_space,
  if◌then◌else◌, Result, ok, err,
}
use learn_loop.Assessment.Reports.{ProblemContent}

-- The five `SEMANTIC_FIELDS` of a draft or candidate; an absent key reads as `None`.
pub record Content : Type 0 where
  pub text : Option String
  pub problem_type : Option String
  pub graph_dsl : Option String
  pub correct_answer : Option String
  pub subject : Option String

-- What pydantic raises where a text, a type or an answer is `None`.
pub data ContentError : Type 0 where
  incomplete_content : ContentError

abbrev pub or_math : Option String → String
or_math none = "math"
or_math (some s) = if is_truthy s then s else "math"

-- The five keys of a snapshot are there; three of the values have to be texts.
unfoldable pub problem_content_from_snapshot : Content → Result ContentError ProblemContent
problem_content_from_snapshot c = elim c.text [
  | none ↦ err incomplete_content
  | some text ↦ elim c.problem_type [
    | none ↦ err incomplete_content
    | some problem_type ↦ elim c.correct_answer [
      | none ↦ err incomplete_content
      | some correct_answer ↦ ok (record {
        text = text;
        problem_type = problem_type;
        subject = or_math c.subject;
        graph_dsl = c.graph_dsl;
        correct_answer = correct_answer;
      })
    ]
  ]
]

-- `ModelIdentity`
pub record Generator : Type 0 where
  pub provider : String
  pub model : String

pub record Candidate : Type 0 where
  pub content : Content
  pub open content use *
  pub generator : Option Generator

-- One value of `_semantic_values`: whitespace does not count, and a blank text is `None`.
abbrev pub semantic_value : Option String → Option String
semantic_value none = none
semantic_value (some s) = let t = without_space s in if is_truthy t then some t else none

abbrev pub same_text : Option String → Option String → Bool
same_text none none = true
same_text (some a) (some b) = str_eq a b
same_text _ _ = false

abbrev same_meaning : Option String → Option String → Bool
same_meaning a b = same_text (semantic_value a) (semantic_value b)

abbrev pub no_content : Content
no_content = record {
  text = none;
  problem_type = none;
  graph_dsl = none;
  correct_answer = none;
  subject = none;
}

-- `before` and `after` are the contents of the two dictionaries.
unfoldable pub has_semantic_change : Content → Content → Bool
has_semantic_change before after = not (
    same_meaning before.text after.text
    && same_meaning before.problem_type after.problem_type
    && same_meaning before.graph_dsl after.graph_dsl
    && same_meaning before.correct_answer after.correct_answer
    && same_meaning before.subject after.subject)

-- `build_original_snapshot`: the semantic fields and nothing else.
pub build_original_snapshot : Content → Content
build_original_snapshot draft = record {
  text = draft.text;
  problem_type = draft.problem_type;
  graph_dsl = draft.graph_dsl;
  correct_answer = draft.correct_answer;
  subject = draft.subject;
}
