-- ===== src/Ingestion/Documents.antt =====
-- The documents of a batch (documents.py), as far as the writes read or change them. Sub-documents
-- that these writes only carry (boxes, crops, provider answers) are texts. Times are in microseconds.
use learn_loop.Prelude.{
  ℕ, ◌+◌, Option, none, some, String, List, [], Bool, true, false, str_eq, find_first, ltb, ◌==◌,
}
use learn_loop.States.{
  BatchState, ImageState, ItemState, VariationStatus, image_code, item_code, variation_code,
}
use learn_loop.Assessment.{Validation}
use learn_loop.Variants.Drafts.{Content, Candidate, no_content}
use learn_loop.Variants.Sessions.{Reservation, Attestation}

-- `IngestionMode` of problem_variation.py, with the legacy value.
pub data IngestionMode : Type 0 where
  original_only data_only transfer_variant data_and_wording : IngestionMode

-- `canonical_variation_mode`; a batch without a mode is an original one.
pub canonical_variation_mode : Option IngestionMode → IngestionMode
canonical_variation_mode none = IngestionMode.original_only
canonical_variation_mode (some IngestionMode.data_and_wording) = IngestionMode.transfer_variant
canonical_variation_mode (some m) = m

-- `is_variant_mode`
abbrev pub is_variant_mode : Option IngestionMode → Bool
is_variant_mode none = false
is_variant_mode (some m) = elim m [ IngestionMode.original_only ↦ false | _ ↦ true ]

pub record Detection : Type 0 where
  pub model : Option String
  pub raw_provider_response : Option String
  pub failure_code : Option String
  pub failure_message : Option String

pub record Image : Type 0 where
  pub image_id : String
  pub status : ImageState
  pub order : ℕ
  pub source_image : String
  pub subject : Option String
  pub boxes : List String
  pub detection : Detection
  pub committed_at : Option ℕ
  pub created_at : ℕ
  pub updated_at : ℕ

pub record Draft : Type 0 where
  pub content : Content
  pub tags : List String

-- The extraction of an item: what the model gave is one text.
pub record Extracted : Type 0 where
  pub success : Option Bool
  pub raw : Option String
  pub failure_code : Option String
  pub failure_message : Option String
  pub request_started_at : Option ℕ
  pub request_finished_at : Option ℕ

pub record Workflow : Type 0 where
  pub status : VariationStatus
  pub generation_count : ℕ
  pub original : Option Content
  pub candidate : Option Candidate
  pub validation : Option Validation
  pub validated_revision : Option ℕ
  pub attestation : Option Attestation
  pub claim_token : Option String
  pub lease_until : Option ℕ
  pub queued_at : Option ℕ
  pub submit_reservation : Option Reservation

pub record Outcome : Type 0 where
  pub submitted_problem_id : Option String
  pub success : Option Bool
  pub failure_code : Option String
  pub failure_message : Option String

pub record Item : Type 0 where
  pub item_id : String
  pub image_id : String
  pub status : ItemState
  pub order : ℕ
  pub box : Option String
  pub draft : Draft
  pub extraction : Extracted
  pub retry_count : ℕ
  pub content_revision : ℕ
  pub variation : Workflow
  pub submit : Outcome
  pub crop : Option String
  pub lease_until : Option ℕ
  pub previous_status : Option ItemState
  pub deleted_at : Option ℕ
  pub created_at : ℕ
  pub updated_at : ℕ

pub record Batch : Type 0 where
  pub status : BatchState
  pub mode : Option IngestionMode
  pub images : List Image
  pub items : List Item
  pub revision : ℕ
  pub created_at : ℕ
  pub updated_at : ℕ
  pub expires_at : ℕ

-- The document that `_id` and `userId` address, if there is one.
abbrev pub Slot : Type 0
Slot = Option Batch

unfoldable pub build_image : String → String → ℕ → ℕ → Image
build_image image_id source_image order now = record {
  image_id = image_id;
  status = ImageState.uploaded;
  order = order;
  source_image = source_image;
  subject = none;
  boxes = [];
  detection = record {
    model = none;
    raw_provider_response = none;
    failure_code = none;
    failure_message = none;
  };
  committed_at = none;
  created_at = now;
  updated_at = now;
}

abbrev pub no_outcome : Outcome
no_outcome = record {
  submitted_problem_id = none;
  success = none;
  failure_code = none;
  failure_message = none;
}

abbrev pub no_workflow : Workflow
no_workflow = record {
  status = VariationStatus.not_requested;
  generation_count = 0;
  original = none;
  candidate = none;
  validation = none;
  validated_revision = none;
  attestation = none;
  claim_token = none;
  lease_until = none;
  queued_at = none;
  submit_reservation = none;
}

unfoldable pub build_item : String → String → ℕ → ℕ → Option String → Item
build_item item_id image_id order now box = record {
  item_id = item_id;
  image_id = image_id;
  status = ItemState.queued;
  order = order;
  box = box;
  draft = record { content = no_content; tags = [] };
  extraction = record {
    success = none;
    raw = none;
    failure_code = none;
    failure_message = none;
    request_started_at = none;
    request_finished_at = none;
  };
  retry_count = 0;
  content_revision = 0;
  variation = no_workflow;
  submit = no_outcome;
  crop = none;
  lease_until = none;
  previous_status = none;
  deleted_at = none;
  created_at = now;
  updated_at = now;
}

unfoldable pub build_batch : ℕ → Option IngestionMode → ℕ → Batch
build_batch ttl mode now = record {
  status = BatchState.active;
  mode = mode;
  images = [];
  items = [];
  revision = 0;
  created_at = now;
  updated_at = now;
  expires_at = now + ttl;
}

abbrev pub image_in : ImageState → Image → Bool
image_in s i = image_code i.status == image_code s

abbrev pub item_in : ItemState → Item → Bool
item_in s i = item_code i.status == item_code s

abbrev pub workflow_in : VariationStatus → Item → Bool
workflow_in s i = variation_code i.variation.status == variation_code s

-- `_find_item`
abbrev pub find_item : String → List Item → Option Item
find_item id items = find_first (λ (i : Item). str_eq i.item_id id) items

abbrev pub find_image : String → List Image → Option Image
find_image id images = find_first (λ (i : Image). str_eq i.image_id id) images

-- `is_batch_expired`
pub is_batch_expired : Batch → ℕ → Bool
is_batch_expired b now = ltb b.expires_at now
