-- ===== src/Ingestion/Admission.antt =====
-- backend/app/presentation/variant_submission.py: the transaction that admits the variant of an item
-- as a problem.
use learn_loop.Prelude.{
  ℕ, Option, none, some, String, List, ◌∷◌, Bool, true, false, ◌&&◌, not, is_none, is_truthy, ◌==◌,
  leb, if◌then◌else◌, Result, ok, err,
}
use learn_loop.States.{BatchState, ItemState, VariationStatus}
use learn_loop.Assessment.{Validation, has_verdict}
use learn_loop.Ingestion.Documents.{Batch, Item, Outcome, Slot, item_in, workflow_in, find_item}
use learn_loop.Ingestion.Submits.{batch_in, record_variant_submission}

-- The answers of `ApiError`, by their messages.
pub data AdmissionError : Type 0 where
  not_found batch_expired inconsistent_submission batch_not_active item_not_ready : AdmissionError
  no_confirmed_source not_validated not_passed candidate_missing not_current : AdmissionError
  graph_dsl_invalid admission_failed source_changed : AdmissionError

-- The attestation is one of the current revision.
abbrev pub is_attested : Item → Bool
is_attested i = elim i.variation.attestation [
  | none ↦ false
  | some a ↦ a.revision == i.content_revision
]

abbrev pub is_validated : Item → Bool
is_validated i = elim i.variation.validated_revision [
  | none ↦ false
  | some r ↦ r == i.content_revision
]

abbrev pub has_passed : Option Validation → Bool
has_passed none = false
has_passed (some v) = has_verdict "pass" v

-- The problem of an item that was submitted, if its outcome is whole.
abbrev pub submitted_problem : Outcome → Option String
submitted_problem o = elim o.success [
  | none ↦ none
  | some s ↦ elim o.submitted_problem_id [
    | none ↦ none
    | some id ↦ if s && is_truthy id then some id else none
  ]
]

abbrev pub read_back : Item → Option String → Result AdmissionError (Item × Option String)
read_back i none = err inconsistent_submission
read_back i (some id) = ok (i, some id)

-- The guards of an item that was not submitted.
unfoldable pub item_guards : Batch → Item → Result AdmissionError (Item × Option String)
item_guards b i =
    if not (batch_in BatchState.active b)
    then err batch_not_active
    else if not (item_in ItemState.ready i)
    then err item_not_ready
    else if is_none i.variation.original
    then err no_confirmed_source
    else if not (workflow_in VariationStatus.ready i)
    then err not_validated
    else if not (has_passed i.variation.validation) && not (is_attested i)
    then err not_passed
    else if is_none i.variation.candidate
    then err candidate_missing
    else if not (is_validated i) && not (is_attested i)
    then err not_current
    else ok (i, none)

abbrev pub guards_found : Batch → Option Item → Result AdmissionError (Item × Option String)
unfolding item_guards
guards_found b none = err not_found
guards_found b (some i) =
    if item_in ItemState.submitted i
    then read_back i (submitted_problem i.submit)
    else item_guards b i

-- `_check_admission_guards`: the item, and the problem that was admitted for it before, if one was.
unfoldable pub check_admission_guards :
    Batch → String → Result AdmissionError (Item × Option String)
unfolding item_guards
check_admission_guards b id = guards_found b (find_item id b.items)

-- The batch, the problems with their ids, and the problems with a solution task.
pub record Database (P : Type 0) : Type 0 where
  pub batch : Slot
  pub problems : List (String × P)
  pub tasks : List String

pub record Admitted : Type 0 where
  pub problem_id : String
  pub already_submitted : Bool

-- `document i attested` stands for `_build_variation_problem_document` with the check of the
-- candidate's drawing before it, or for what they raise; `fresh` is the new `ObjectId`.
module _ {P : Type 0} (document : Item → Bool → Result AdmissionError P) where
  -- `admit_variant_problem` with the recorder of an item; a raise aborts the transaction.
  abbrev pub recorded :
      String → P → Database P → Slot × Bool → Result AdmissionError Admitted × Database P
  recorded fresh p db (slot, matched) =
      if matched
      then (
        ok (record { problem_id = fresh; already_submitted = false }),
        record { batch = slot; problems = (fresh, p) ∷ db.problems; tasks = fresh ∷ db.tasks },
      )
      else (err source_changed, db)

  abbrev pub admit_built :
      String
      → String
      → ℕ
      → Database P
      → Result AdmissionError P
      → Result AdmissionError Admitted × Database P
  unfolding record_variant_submission
  admit_built id fresh now db (err e) = (err e, db)
  admit_built id fresh now db (ok p) =
      recorded fresh p db (record_variant_submission id fresh now db.batch)

  abbrev pub admit_checked :
      String
      → String
      → ℕ
      → Database P
      → Result AdmissionError (Item × Option String)
      → Result AdmissionError Admitted × Database P
  unfolding record_variant_submission
  admit_checked id fresh now db (err e) = (err e, db)
  admit_checked id fresh now db (ok (i, some problem)) =
      (ok (record { problem_id = problem; already_submitted = true }), db)
  admit_checked id fresh now db (ok (i, none)) =
      admit_built id fresh now db (document i (is_attested i))

  abbrev pub admit_in :
      String → String → ℕ → Database P → Slot → Result AdmissionError Admitted × Database P
  unfolding record_variant_submission check_admission_guards
  admit_in id fresh now db none = (err not_found, db)
  admit_in id fresh now db (some b) =
      if leb b.expires_at now
      then (err batch_expired, db)
      else admit_checked id fresh now db (check_admission_guards b id)

  -- `admit_variant_item`
  unfoldable pub admit_variant_item :
      String → String → ℕ → Database P → Result AdmissionError Admitted × Database P
  unfolding record_variant_submission check_admission_guards
  admit_variant_item id fresh now db = admit_in id fresh now db db.batch
