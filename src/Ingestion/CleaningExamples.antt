-- ===== src/Ingestion/CleaningExamples.antt =====
-- The cleanup of a completed batch with one item whose audit image a problem has.
use learn_loop.Prelude.{ℕ, Bool, String, false, some, none, [], ◌∷◌, str_eq, any}
use learn_loop.States.{BatchState, ItemState}
use learn_loop.Variants.Drafts.{Content, no_content}
use learn_loop.Ingestion.Documents.{
  Batch, Item, IngestionMode, build_batch, build_image, build_item,
}
use learn_loop.Ingestion.Cleanup.{Objects, run_batch_cleanup}
use learn_loop.Ingestion.Cleaning.{Deletes, temporary, run_batch_cleanup-Deletes}

abbrev question : Content
question = record no_content { text = some "What is 2 + 2?"; correct_answer = some "4" }

abbrev new_item : Item
new_item = build_item "i" "p" 0 2 none

abbrev cropped : Item
cropped = record new_item {
  status = ItemState.submitted;
  crop = some "s3://crop";
  variation = record (new_item.variation) { original = some question };
}

abbrev completed : Batch
completed = record (build_batch 1000 (some IngestionMode.data_only) 0) {
  status = BatchState.completed;
  images = build_image "p" "s3://page" 0 1 ∷ [];
  items = cropped ∷ [];
}

abbrev stored : Objects
stored o = any (str_eq o) ("s3://page" ∷ "s3://crop" ∷ "s3://audit/i" ∷ [])

abbrev no_error : String → Bool
no_error o = false

abbrev in_problem : String → Bool
in_problem o = str_eq o "s3://audit/i"

abbrev key : ℕ → Item → String
key id i = "s3://audit/i"

cleanup_example :
    Deletes no_error
      (temporary no_error in_problem key ((4, completed) ∷ []))
      stored
      (run_batch_cleanup no_error in_problem key 2000
        ((4, completed) ∷ [])
        stored
        (λ id. some completed)).0
cleanup_example =
    run_batch_cleanup-Deletes no_error in_problem key 2000 ((4, completed) ∷ []) stored
      (λ id. some completed)
