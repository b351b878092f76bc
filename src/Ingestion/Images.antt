-- ===== src/Ingestion/Images.antt =====
-- The writes on the images of a batch. Each function first loads the batch and raises where there is
-- none; the answer `false` of a slot without a document stands for that too.
use learn_loop.Prelude.{
  update_first, ℕ, suc, ◌+◌, Option, none, some, String, List, [], ◌∷◌, ◌++◌, Bool, ◌&&◌, ◌||◌, not,
  any, str_eq, map, keep_if, if◌then◌else◌, leb, ◌==◌,
}
use learn_loop.States.{ImageState, ItemState}
use learn_loop.Ingestion.Documents.{
  Batch, Image, Item, Slot, build_image, build_item, image_in, item_in, find_image,
}
use learn_loop.Ingestion.Writes.{write, write_image, anywhere}

-- `image_id` is the fresh id.
unfoldable pub add_source_image : String → String → ℕ → ℕ → Slot → Slot × Bool
unfolding build_image
add_source_image image_id source_image order now =
    write anywhere
      (λ b. record b { images = b.images ++ (build_image image_id source_image order now ∷ []) })
      now

abbrev pub is_image : String → Image → Bool
is_image id i = str_eq i.image_id id

-- `{"$nin": [committed, deleted]}`
abbrev pub is_open : Image → Bool
is_open i = not (image_in ImageState.committed i || image_in ImageState.deleted i)

abbrev pub committed : ℕ → Image → Image
committed now i = record i { status = ImageState.committed; committed_at = some now }

-- The items of `add_items_for_image`, `ids` naming the fresh id at an order.
unfoldable pub new_items : (ℕ → String) → String → ℕ → List (Option String) → ℕ → List Item
unfolding build_item
new_items ids image_id order [] now = []
new_items ids image_id order (box ∷ boxes) now =
    build_item (ids order) image_id order now box ∷ new_items ids image_id (order + 1) boxes now

-- `[None] * n`
pub no_boxes : ℕ → List (Option String)
no_boxes ℕ.zero = []
no_boxes (suc n) = none ∷ no_boxes n

unfoldable pub add_items_for_image : (ℕ → String) → String → ℕ → ℕ → ℕ → Slot → Slot × Bool
unfolding new_items no_boxes
add_items_for_image ids image_id item_count starting_order now =
    write (λ b. any (λ i. is_image image_id i && is_open i) b.images)
      (λ b. record b {
        items = b.items ++ new_items ids image_id starting_order (no_boxes item_count) now;
        images =
            update_first (λ i. is_image image_id i && is_open i)
              (λ i. record (committed now i) { updated_at = now }) b.images;
      })
      now

unfoldable pub start_image_detection : String → ℕ → Slot → Slot × Bool
start_image_detection image_id now =
    write_image anywhere
      (λ i.
        is_image image_id i
        && (image_in ImageState.uploaded i || image_in ImageState.detect_failed i))
      (λ i. record i { status = ImageState.detecting }) now

unfoldable pub save_detection_success :
    String → String → List String → String → Option String → ℕ → Slot → Slot × Bool
save_detection_success image_id subject boxes model raw now =
    write_image anywhere (λ i. is_image image_id i && image_in ImageState.detecting i)
      (λ i. record i {
        status = ImageState.ready;
        subject = some subject;
        boxes = boxes;
        detection = record {
          model = some model;
          raw_provider_response = raw;
          failure_code = none;
          failure_message = none;
        };
      })
      now

unfoldable pub save_detection_failure : String → String → String → ℕ → Slot → Slot × Bool
save_detection_failure image_id code message now =
    write_image anywhere (λ i. is_image image_id i && image_in ImageState.detecting i)
      (λ i. record i {
        status = ImageState.detect_failed;
        detection = record {
          model = none;
          raw_provider_response = none;
          failure_code = some code;
          failure_message = some message;
        };
      })
      now

abbrev given_or : Option String → Option String → Option String
given_or none old = old
given_or (some s) old = some s

unfoldable pub save_boxes_and_subject :
    String → Option String → List String → ℕ → Slot → Slot × Bool
save_boxes_and_subject image_id subject boxes now =
    write_image anywhere (λ i. is_image image_id i && is_open i)
      (λ i. record i {
        status = ImageState.ready;
        boxes = boxes;
        subject = given_or subject i.subject;
      })
      now

-- `items.$[item]`: every item of the image.
abbrev pub delete_item_of : String → ℕ → Item → Item
delete_item_of image_id now i =
    if str_eq i.image_id image_id
    then record i { status = ItemState.deleted; updated_at = now }
    else i

unfoldable pub delete_batch_image : String → ℕ → Slot → Slot × Bool
delete_batch_image image_id now =
    write (λ b. any (is_image image_id) b.images)
      (λ b. record b {
        images =
            update_first (is_image image_id)
              (λ i. record i { status = ImageState.deleted; updated_at = now }) b.images;
        items = map (delete_item_of image_id now) b.items;
      })
      now

-- `max((item["order"] ...), default=-1) + 1` over the items that are not deleted.
unfoldable pub next_order : List Item → ℕ
next_order [] = 0
next_order (i ∷ items) =
    let rest = next_order items in
    if item_in ItemState.deleted i then rest else if leb rest i.order then i.order + 1 else rest

-- How an attempt ends: with a value, with an exception, or by losing the race.
pub data Attempt (A : Type 0) : Type 0 where
  done : A → Attempt A
  raised : Attempt A
  lost : Attempt A

-- `{**_revision_guard(batch)}`; every batch has the field.
abbrev pub revision_guard : Batch → Batch → Bool
revision_guard seen b = b.revision == seen.revision

abbrev pub commit_boxes : (ℕ → String) → String → ℕ → Batch → Image → Slot → Slot × Bool
commit_boxes ids image_id now seen image =
    write
      (λ b.
        revision_guard seen b
        && any (λ i. is_image image_id i && image_in ImageState.ready i) b.images)
      (λ b. record b {
        items =
            b.items
            ++ new_items ids image_id (next_order seen.items) (map (λ x. some x) image.boxes) now;
        images =
            update_first (λ i. is_image image_id i && image_in ImageState.ready i)
              (λ i. record (committed now i) { updated_at = now }) b.images;
      })
      now

abbrev pub outcome_of : {A : Type 0} → A → Slot × Bool → Attempt A × Slot
outcome_of a (slot, matched) = (if matched then done a else lost, slot)

abbrev pub commit_found :
    (ℕ → String) → String → ℕ → Batch → Option Image → Slot → Attempt (List Item) × Slot
commit_found ids image_id now seen none slot = (raised, slot)
commit_found ids image_id now seen (some image) slot =
    if image_in ImageState.committed image
    then (
      done (
          keep_if (λ i. str_eq i.image_id image_id && not (item_in ItemState.deleted i))
            seen.items),
      slot,
    )
    else if image_in ImageState.ready image
    then outcome_of
        (new_items ids image_id (next_order seen.items) (map (λ x. some x) image.boxes) now)
        (commit_boxes ids image_id now seen image slot)
    else (raised, slot)

-- One turn of the loop of `commit_image_boxes`, from the batch that it read.
unfoldable pub commit_attempt :
    (ℕ → String) → String → ℕ → Batch → Slot → Attempt (List Item) × Slot
unfolding new_items next_order
commit_attempt ids image_id now seen slot =
    commit_found ids image_id now seen (find_image image_id seen.images) slot
