-- ===== src/States.antt =====
-- The lifecycles: backend/app/domain/state.py, domain/ingestion/state.py and the variation
-- lifecycle of problem_variation.py. Each table is a function from a state to its legal targets.
pub mod Absorbing
pub mod Chains
pub mod Preview
use learn_loop.Prelude.{
  ℕ, Bool, true, false, ◌||◌, List, [], ◌∷◌, Result, ok, err, any, ◌==◌, if◌then◌else◌,
}

-- `InvalidStateTransitionError`
pub data TransitionError : Type 0 where
  invalid_transition : TransitionError

-- `domain/models.py`, `domain/ingestion/state.py`, `problem_variation.py`: the enumerations.
pub data ExamState : Type 0 where
  in_progress grading submitted discarded : ExamState

pub data PreviewStatus : Type 0 where
  uploaded extracting ready vlm_failed confirmed expired : PreviewStatus

pub data BatchState : Type 0 where
  active completed expired deleted : BatchState

pub data ImageState : Type 0 where
  uploaded detecting detect_failed ready committed deleted : ImageState

pub data ItemState : Type 0 where
  queued extracting ready failed submit_failed deleted submitted : ItemState

pub data VariationStatus : Type 0 where
  not_requested queued generating validating ready failed needs_validation : VariationStatus

-- Equality of the enumerations, by the position of a member.
abbrev pub exam_code : ExamState → ℕ
exam_code ExamState.in_progress = 0
exam_code ExamState.grading = 1
exam_code ExamState.submitted = 2
exam_code ExamState.discarded = 3

abbrev pub preview_code : PreviewStatus → ℕ
preview_code PreviewStatus.uploaded = 0
preview_code PreviewStatus.extracting = 1
preview_code PreviewStatus.ready = 2
preview_code PreviewStatus.vlm_failed = 3
preview_code PreviewStatus.confirmed = 4
preview_code PreviewStatus.expired = 5

abbrev pub batch_code : BatchState → ℕ
batch_code BatchState.active = 0
batch_code BatchState.completed = 1
batch_code BatchState.expired = 2
batch_code BatchState.deleted = 3

abbrev pub image_code : ImageState → ℕ
image_code ImageState.uploaded = 0
image_code ImageState.detecting = 1
image_code ImageState.detect_failed = 2
image_code ImageState.ready = 3
image_code ImageState.committed = 4
image_code ImageState.deleted = 5

abbrev pub item_code : ItemState → ℕ
item_code ItemState.queued = 0
item_code ItemState.extracting = 1
item_code ItemState.ready = 2
item_code ItemState.failed = 3
item_code ItemState.submit_failed = 4
item_code ItemState.deleted = 5
item_code ItemState.submitted = 6

abbrev pub variation_code : VariationStatus → ℕ
variation_code VariationStatus.not_requested = 0
variation_code VariationStatus.queued = 1
variation_code VariationStatus.generating = 2
variation_code VariationStatus.validating = 3
variation_code VariationStatus.ready = 4
variation_code VariationStatus.failed = 5
variation_code VariationStatus.needs_validation = 6

-- `EXAM_TRANSITIONS`
pub exam_transitions : ExamState → List ExamState
exam_transitions ExamState.in_progress =
    ExamState.grading ∷ ExamState.submitted ∷ ExamState.discarded ∷ []
exam_transitions ExamState.grading = ExamState.submitted ∷ ExamState.discarded ∷ []
exam_transitions ExamState.submitted = []
exam_transitions ExamState.discarded = []

-- `PREVIEW_TRANSITIONS`
pub preview_transitions : PreviewStatus → List PreviewStatus
preview_transitions PreviewStatus.uploaded = PreviewStatus.extracting ∷ PreviewStatus.expired ∷ []
preview_transitions PreviewStatus.extracting =
    PreviewStatus.ready ∷ PreviewStatus.vlm_failed ∷ PreviewStatus.expired ∷ []
preview_transitions PreviewStatus.ready = PreviewStatus.confirmed ∷ PreviewStatus.expired ∷ []
preview_transitions PreviewStatus.vlm_failed =
    PreviewStatus.extracting ∷ PreviewStatus.confirmed ∷ PreviewStatus.expired ∷ []
preview_transitions PreviewStatus.confirmed = []
preview_transitions PreviewStatus.expired = []

-- `BATCH_TRANSITIONS`
pub batch_transitions : BatchState → List BatchState
batch_transitions BatchState.active =
    BatchState.completed ∷ BatchState.expired ∷ BatchState.deleted ∷ []
batch_transitions BatchState.completed = []
batch_transitions BatchState.expired = []
batch_transitions BatchState.deleted = []

-- `IMAGE_TRANSITIONS`
pub image_transitions : ImageState → List ImageState
image_transitions ImageState.uploaded = ImageState.detecting ∷ ImageState.deleted ∷ []
image_transitions ImageState.detecting = ImageState.ready ∷ ImageState.detect_failed ∷ []
image_transitions ImageState.detect_failed =
    ImageState.detecting ∷ ImageState.ready ∷ ImageState.deleted ∷ []
image_transitions ImageState.ready = ImageState.committed ∷ ImageState.deleted ∷ []
image_transitions ImageState.committed = ImageState.deleted ∷ []
image_transitions ImageState.deleted = []

-- `ITEM_TRANSITIONS`
pub item_transitions : ItemState → List ItemState
item_transitions ItemState.queued = ItemState.extracting ∷ ItemState.deleted ∷ []
item_transitions ItemState.extracting = ItemState.ready ∷ ItemState.failed ∷ []
item_transitions ItemState.failed = ItemState.queued ∷ ItemState.deleted ∷ []
item_transitions ItemState.ready =
    ItemState.submitted ∷ ItemState.submit_failed ∷ ItemState.deleted ∷ []
item_transitions ItemState.submit_failed = ItemState.queued ∷ ItemState.deleted ∷ []
item_transitions ItemState.deleted = []
item_transitions ItemState.submitted = []

-- `VARIATION_TRANSITIONS`
pub variation_transitions : VariationStatus → List VariationStatus
variation_transitions VariationStatus.not_requested = VariationStatus.queued ∷ []
variation_transitions VariationStatus.queued =
    VariationStatus.generating ∷ VariationStatus.validating ∷ VariationStatus.not_requested ∷ []
variation_transitions VariationStatus.generating =
    VariationStatus.validating ∷ VariationStatus.failed ∷ VariationStatus.not_requested ∷ []
variation_transitions VariationStatus.validating =
    VariationStatus.ready ∷ VariationStatus.failed ∷ VariationStatus.needs_validation
    ∷ VariationStatus.not_requested ∷ []
variation_transitions VariationStatus.ready =
    VariationStatus.needs_validation ∷ VariationStatus.queued ∷ VariationStatus.not_requested ∷ []
variation_transitions VariationStatus.failed =
    VariationStatus.queued ∷ VariationStatus.ready ∷ VariationStatus.needs_validation
    ∷ VariationStatus.not_requested ∷ []
variation_transitions VariationStatus.needs_validation =
    VariationStatus.queued ∷ VariationStatus.ready ∷ VariationStatus.not_requested ∷ []

-- `target not in valid_targets: raise`, else `return target`; `code` is the members' equality.
abbrev check_transition : {S : Type 0} → (S → ℕ) → List S → S → Result TransitionError S
check_transition code targets target =
    if any (λ t. code target == code t) targets then ok target else err invalid_transition

unfoldable pub transition_exam_state : ExamState → ExamState → Result TransitionError ExamState
unfolding exam_transitions
transition_exam_state current target = check_transition exam_code (exam_transitions current) target

unfoldable pub transition_preview_state :
    PreviewStatus → PreviewStatus → Result TransitionError PreviewStatus
unfolding preview_transitions
transition_preview_state current target =
    check_transition preview_code (preview_transitions current) target

unfoldable pub transition_batch_state : BatchState → BatchState → Result TransitionError BatchState
unfolding batch_transitions
transition_batch_state current target =
    check_transition batch_code (batch_transitions current) target

unfoldable pub transition_image_state : ImageState → ImageState → Result TransitionError ImageState
unfolding image_transitions
transition_image_state current target =
    check_transition image_code (image_transitions current) target

unfoldable pub transition_item_state : ItemState → ItemState → Result TransitionError ItemState
unfolding item_transitions
transition_item_state current target = check_transition item_code (item_transitions current) target

unfoldable pub transition_variation_status :
    VariationStatus → VariationStatus → Result TransitionError VariationStatus
unfolding variation_transitions
transition_variation_status current target =
    check_transition variation_code (variation_transitions current) target

-- `BATCH_TERMINAL_STATES`, `IMAGE_TERMINAL_STATES`, `ITEM_TERMINAL_STATES`.
unfoldable pub is_batch_terminal : BatchState → Bool
is_batch_terminal BatchState.active = false
is_batch_terminal _ = true

unfoldable pub is_image_terminal : ImageState → Bool
is_image_terminal ImageState.deleted = true
is_image_terminal _ = false

unfoldable pub is_item_terminal : ItemState → Bool
is_item_terminal ItemState.deleted = true
is_item_terminal ItemState.submitted = true
is_item_terminal _ = false

-- `VARIATION_IN_FLIGHT`
unfoldable pub is_variation_in_flight : VariationStatus → Bool
is_variation_in_flight VariationStatus.queued = true
is_variation_in_flight VariationStatus.generating = true
is_variation_in_flight VariationStatus.validating = true
is_variation_in_flight _ = false
