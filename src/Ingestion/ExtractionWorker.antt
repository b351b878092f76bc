-- ===== src/Ingestion/ExtractionWorker.antt =====
-- backend/app/infrastructure/worker/extraction_worker.py: the choice of an item and one extraction.
use learn_loop.Prelude.{
  ℕ, Option, none, some, String, [], Bool, true, false, ◌&&◌, ◌||◌, is_truthy, if◌then◌else◌,
  Result, ok, err,
}
use learn_loop.States.{ItemState}
use learn_loop.Ingestion.Documents.{Batch, Image, Item, Draft, Extracted, Slot, item_in, find_image}
use learn_loop.Ingestion.Items.{is_free, save_extraction_success, save_extraction_failure}

-- `_is_item_claimable`
unfoldable pub is_item_claimable : Item → ℕ → Bool
is_item_claimable i now =
    item_in ItemState.queued i || (item_in ItemState.extracting i && is_free i.lease_until now)

-- `_failed_extraction`; what the provider answered is one text.
unfoldable pub failed_extraction : String → String → ℕ → ℕ → Option String → Extracted
failed_extraction code message started_at finished_at raw = record {
  success = some false;
  raw = raw;
  failure_code = some code;
  failure_message = some message;
  request_started_at = some started_at;
  request_finished_at = some finished_at;
}

-- What the model read off a crop; `raw` is all that is stored of its answer as it is.
pub record Reading : Type 0 where
  pub text : String
  pub problem_type : Option String
  pub graph_dsl : Option String
  pub correct_answer : Option String
  pub raw : Option String

-- An exception of the call: one of the provider's kinds with its code, or another.
pub data CallError : Type 0 where
  provider : String → String → Option String → CallError
  unexpected : String → CallError

-- What an extraction gets from outside: the bytes of the source (or the text of the exception), the
-- stored crop of it, whether the crop could be stored, and the reply of the model of the subject.
pub record Outside : Type 0 where
  pub source_bytes : Result String String
  pub crop : String → String → Result String String
  pub stored : Bool
  pub extract : String → Result CallError Reading

-- `subject` of an image that is not blank, and a box.
abbrev set_text : Option String → Option String
set_text none = none
set_text (some s) = if is_truthy s then some s else none

module _ (normalize : String → String) (sanitize : Option String → Option String × Option String)
    (outside : Outside) (item : Item) (current finished_at : ℕ) where
  abbrev pub fail_at : String → String → ℕ → Option String → Slot → Slot × Bool
  unfolding save_extraction_failure failed_extraction
  fail_at code message at raw slot =
      save_extraction_failure item.item_id (failed_extraction code message current at raw)
        item.lease_until at slot

  -- `sanitize` has the canonical drawing and the joined reasons against it.
  unfoldable pub read_draft : String → Reading → Draft
  read_draft subject r = record {
    content = record {
      text = some (normalize r.text);
      problem_type = r.problem_type;
      graph_dsl = (sanitize r.graph_dsl).0;
      correct_answer = r.correct_answer;
      subject = some subject;
    };
    tags = [];
  }

  unfoldable pub read_extraction : Reading → Extracted
  read_extraction r = record {
    success = some true;
    raw = r.raw;
    failure_code = none;
    failure_message = (sanitize r.graph_dsl).1;
    request_started_at = some current;
    request_finished_at = some finished_at;
  }

  -- The reply of the model; a subject without a model raises like any other failure of the call.
  unfoldable pub extracted : String → String → Result CallError Reading → Slot → Slot × Bool
  unfolding save_extraction_failure failed_extraction save_extraction_success read_draft
      read_extraction
  extracted crop subject (err (CallError.provider code message raw)) slot =
      fail_at code message finished_at raw slot
  extracted crop subject (err (CallError.unexpected message)) slot =
      fail_at "extraction-failed" message finished_at none slot
  extracted crop subject (ok r) slot =
      save_extraction_success item.item_id crop (read_draft subject r) (read_extraction r)
        item.lease_until finished_at slot

  -- The crop; a crop that cannot be stored raises out of the extraction, before any write.
  unfoldable pub cropped : String → Result String String → Slot → Slot × Bool
  unfolding save_extraction_failure failed_extraction extracted
  cropped subject (err message) slot = fail_at "crop-failed" message current none slot
  cropped subject (ok crop) slot =
      if outside.stored
      then extracted crop subject (outside.extract subject) slot
      else (slot, false)

  unfoldable pub loaded : String → String → Result String String → Slot → Slot × Bool
  unfolding save_extraction_failure failed_extraction cropped
  loaded subject box (err message) slot = fail_at "storage-read-failed" message current none slot
  loaded subject box (ok bytes) slot = cropped subject (outside.crop bytes box) slot

  unfoldable pub boxed : String → Option String → Slot → Slot × Bool
  unfolding save_extraction_failure failed_extraction loaded
  boxed subject none slot = fail_at "missing-box" "Item has no crop box" current none slot
  boxed subject (some box) slot = loaded subject box outside.source_bytes slot

  unfoldable pub with_subject : Option String → Slot → Slot × Bool
  unfolding save_extraction_failure failed_extraction boxed
  with_subject none slot = fail_at "missing-subject" "Image subject is not set" current none slot
  with_subject (some subject) slot = boxed subject (set_text item.box) slot

  unfoldable pub with_image : Option Image → Slot → Slot × Bool
  unfolding save_extraction_failure failed_extraction with_subject
  with_image none slot =
      fail_at "source-image-missing" "Source image not found in batch" current none slot
  with_image (some image) slot = with_subject (set_text image.subject) slot

  -- `process_item` on a claimed item of the batch that the worker found: the document after it, and
  -- whether a result was saved.
  unfoldable pub process_item : Batch → Slot → Slot × Bool
  unfolding with_image
  process_item batch slot = with_image (find_image item.image_id batch.images) slot
