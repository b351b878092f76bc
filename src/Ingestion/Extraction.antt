-- ===== src/Ingestion/Extraction.antt =====
-- Every extraction that keeps its lease ends, with the item ready or failed.
use learn_loop.Prelude.{
  ℕ, Option, none, some, String, Bool, true, false, ◌&&◌, ◌≡◌, arith, any, Result, ok, err,
}
use learn_loop.States.{ItemState, VariationStatus}
use learn_loop.Ingestion.Documents.{
  Batch, Image, Item, Draft, Extracted, Slot, item_in, workflow_in, find_image,
}
use learn_loop.Ingestion.Writes.{any-weaken}
use learn_loop.Ingestion.Items.{
  is_item, same_lease, save_extraction_success, save_extraction_failure,
}
use learn_loop.Ingestion.ExtractionWorker.{
  Reading, CallError, Outside, extracted, cropped, loaded, boxed, with_subject, with_image,
  process_item,
}

-- The item is being extracted under the lease.
abbrev pub under_lease : String → Option ℕ → Item → Bool
under_lease id lease i =
    is_item id i
    && item_in ItemState.extracting i
    && workflow_in VariationStatus.not_requested i
    && same_lease i.lease_until lease

abbrev pub is_leased : String → Option ℕ → Slot → Bool
is_leased id lease none = false
is_leased id lease (some b) = any (under_lease id lease) b.items

success-lands :
    (id crop : String) (draft : Draft) (e : Extracted) (lease : Option ℕ) (now : ℕ) (slot : Slot)
    → is_leased id lease slot ≡ true
    → (save_extraction_success id crop draft e lease now slot).1 ≡ true
unfolding save_extraction_success
success-lands id crop draft e lease now none h = ground arith
success-lands id crop draft e lease now (some b) h = ground (arith, h)

failure-lands :
    (id : String) (e : Extracted) (lease : Option ℕ) (now : ℕ) (slot : Slot)
    → is_leased id lease slot ≡ true
    → (save_extraction_failure id e lease now slot).1 ≡ true
unfolding save_extraction_failure
failure-lands id e lease now none h = ground arith
failure-lands id e lease now (some b) h = ground (
  arith,
  h,
  any-weaken (under_lease id lease)
      (λ i. is_item id i && item_in ItemState.extracting i && same_lease i.lease_until lease)
      b.items (λ i t. ground arith),
)

module _ (normalize : String → String) (sanitize : Option String → Option String × Option String)
    (outside : Outside) (item : Item) (current finished_at : ℕ) (slot : Slot)
    (stored : outside.stored ≡ true)
    (leased : is_leased item.item_id item.lease_until slot ≡ true) where
  extracted-lands :
      (crop subject : String) (reply : Result CallError Reading)
      → (extracted normalize sanitize outside item current finished_at crop subject reply slot).1
        ≡ true
  unfolding extracted
  extracted-lands crop subject (err (CallError.provider code message raw)) =
      failure-lands _ _ _ _ slot leased
  extracted-lands crop subject (err (CallError.unexpected message)) =
      failure-lands _ _ _ _ slot leased
  extracted-lands crop subject (ok r) = success-lands _ _ _ _ _ _ slot leased

  cropped-lands :
      (subject : String) (crop : Result String String)
      → (cropped normalize sanitize outside item current finished_at subject crop slot).1 ≡ true
  unfolding cropped
  cropped-lands subject (err message) = failure-lands _ _ _ _ slot leased
  cropped-lands subject (ok crop) =
      ground (arith, stored, extracted-lands crop subject (outside.extract subject))

  loaded-lands :
      (subject box : String) (bytes : Result String String)
      → (loaded normalize sanitize outside item current finished_at subject box bytes slot).1 ≡ true
  unfolding loaded
  loaded-lands subject box (err message) = failure-lands _ _ _ _ slot leased
  loaded-lands subject box (ok bytes) = cropped-lands subject (outside.crop bytes box)

  boxed-lands :
      (subject : String) (box : Option String)
      → (boxed normalize sanitize outside item current finished_at subject box slot).1 ≡ true
  unfolding boxed
  boxed-lands subject none = failure-lands _ _ _ _ slot leased
  boxed-lands subject (some box) = loaded-lands subject box outside.source_bytes

  with_subject-lands :
      (subject : Option String)
      → (with_subject normalize sanitize outside item current finished_at subject slot).1 ≡ true
  unfolding with_subject
  with_subject-lands none = failure-lands _ _ _ _ slot leased
  with_subject-lands (some subject) = boxed-lands subject _

  with_image-lands :
      (image : Option Image)
      → (with_image normalize sanitize outside item current finished_at image slot).1 ≡ true
  unfolding with_image
  with_image-lands none = failure-lands _ _ _ _ slot leased
  with_image-lands (some image) = with_subject-lands _

  -- An extraction that keeps its lease saves a result: if the crop can be stored and the item is
  -- still being extracted under the lease that was claimed, and no variant of it was requested, then
  -- whether the image, its subject or the box is missing, or the storage, the cropping or the model
  -- fails, or all goes well, a failure or a draft is written.
  pub process_item-lands :
      (batch : Batch)
      → (process_item normalize sanitize outside item current finished_at batch slot).1 ≡ true
  unfolding process_item
  process_item-lands batch = with_image-lands (find_image item.image_id batch.images)
