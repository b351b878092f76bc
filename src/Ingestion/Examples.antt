-- ===== src/Ingestion/Examples.antt =====
-- The theorems on batches at concrete batches and writes.
use learn_loop.Prelude.{
  ℕ, without_space, ◌+◌, ◌==◌, if◌then◌else◌, ◌≡◌, refl, some, none, [], ◌∷◌, List, true, Option,
  All, String, not, ◌&&◌, arith,
}
use learn_loop.States.{ItemState, VariationStatus, is_variation_in_flight}
use learn_loop.Variants.Drafts.{has_semantic_change, Content, no_content}
use learn_loop.Variants.Sessions.{is_reservable}
use learn_loop.Ingestion.Documents.{
  Batch, Item, Slot, IngestionMode, build_batch, build_image, build_item, workflow_in,
}
use learn_loop.Ingestion.Images.{delete_batch_image, done}
use learn_loop.Ingestion.Deletion.{
  delete_from, undo_seen, undo_previous, undo_to, mark_item_deleted, undo_item_deletion,
}
use learn_loop.Ingestion.Variations.{
  draft_attempt, write_draft_variant, in_variant_mode, is_actionable, attest_filter,
}
use learn_loop.Ingestion.Requests.{
  request_variation_generation, request_variation_revalidation, attest_variation_validation,
}
use learn_loop.Ingestion.History.{
  Write, Guarded, Loose, Step, run, step, act, apply, apply_loose, apply_guarded, version,
}
use learn_loop.Ingestion.Items.{DraftUpdate, merge_draft}
use learn_loop.Ingestion.Serial.{serial, perform_all, run-serial}
use learn_loop.Ingestion.Invariant.{AllSound, run-AllSound}
use learn_loop.Ingestion.Fencing.{IsRefused, lost_claim_is_fenced}
use learn_loop.Ingestion.Only.{holding}
use learn_loop.Ingestion.Restore.{written, deleted_item, restored_item, undo-mark_item_deleted}
use learn_loop.Ingestion.Answers.{answer, requests_are_answered}
use learn_loop.Ingestion.Retrying.{submit_items_and_complete_batch, submit_lands}

abbrev question : Content
question = record no_content { text = some "What is 2 + 2?"; correct_answer = some "4" }

abbrev empty : Batch
empty = build_batch 1000 (some IngestionMode.data_only) 0

-- Two items are added, one is read by a model, generated and claimed, while a submit request that
-- read the batch earlier and one that reads it at the end compete, and an item is deleted.
abbrev day : List Step
day =
    Step.blind (Write.add_image "p" "s3://p" 0 1)
    ∷ Step.blind (Write.add_items (λ n. "i") "p" 2 0 2)
    ∷ Step.blind (Write.generate "i" question 0 3)
    ∷ Step.loose (Loose.claim_work "i" "t" 60 4) 1
    ∷ Step.guarded (Guarded.submit [] "s" 5) 2
    ∷ Step.guarded (Guarded.complete 6) 0
    ∷ Step.blind (Write.delete "i" ItemState.queued 7)
    ∷ Step.loose (Loose.undo "i" 8) 0
    ∷ []

run-serial_example :
    version 0 (run day (empty ∷ [])) ≡ perform_all (serial day (empty ∷ [])) (some empty)
run-serial_example = run-serial day empty

run-AllSound_example :
    All AllSound (run day (build_batch 1000 (some IngestionMode.data_only) 0 ∷ []))
run-AllSound_example = run-AllSound 1000 (some IngestionMode.data_only) 0 day

-- An item whose generation was claimed again, after the lease of `t` had run out.
abbrev reclaimed : Item
reclaimed = record (build_item "i" "p" 0 2 none) {
  status = ItemState.ready;
  content_revision = 1;
  variation = record ((build_item "i" "p" 0 2 none).variation) {
    status = VariationStatus.generating;
    original = some question;
    claim_token = some "u";
    lease_until = some 200;
  };
}

abbrev busy : Batch
busy = record empty { items = reclaimed ∷ [] }

lost_claim_example : IsRefused "t" "i" 150 (
    version 0 (
      run
        (Step.blind (Write.renew_lease "i" "u" 60 140)
          ∷ Step.loose (Loose.claim_work "i" "v" 60 300) 0
          ∷ [])
        (busy ∷ [])))
lost_claim_example =
    lost_claim_is_fenced "t" "i" 150 busy
      (Step.blind (Write.renew_lease "i" "u" 60 140)
        ∷ Step.loose (Loose.claim_work "i" "v" 60 300) 0
        ∷ [])
      (refl, tt) (tt, (refl, tt))

abbrev other : Item
other = build_item "j" "p" 1 2 none

undo_example :
    ((mark_item_deleted "i" 10 (some (holding empty (reclaimed ∷ other ∷ [])))).1 ≡ true)
    × ((mark_item_deleted "i" 10 (some (holding empty (reclaimed ∷ other ∷ [])))).0
        ≡ some (written empty [] (deleted_item 10 reclaimed) (other ∷ []) 1 10))
    × (undo_item_deletion "i" 20
          (written empty [] (deleted_item 10 reclaimed) (other ∷ []) 1 10)
          (mark_item_deleted "i" 10 (some (holding empty (reclaimed ∷ other ∷ [])))).0
        ≡ (some (written empty [] (restored_item 20 reclaimed) (other ∷ []) 2 20), true))
unfolding build_item
undo_example = undo-mark_item_deleted empty reclaimed [] (other ∷ []) 10 20 tt (refl, tt) refl refl

answers_example :
    ((request_variation_generation "i" question 1 30
        (λ s. s)
        (some (holding empty (reclaimed ∷ other ∷ [])))).0
      ≡ answer
          (in_variant_mode empty
            && not (is_variation_in_flight reclaimed.variation.status)
            && is_reservable reclaimed.variation.submit_reservation 30
            && is_actionable reclaimed)
          1
          reclaimed)
    × ((request_variation_revalidation "i" 1 30
          (λ s. s)
          (some (holding empty (reclaimed ∷ other ∷ [])))).0
        ≡ answer
            (in_variant_mode empty
              && is_actionable reclaimed
              && workflow_in VariationStatus.needs_validation reclaimed)
            1
            reclaimed)
    × ((attest_variation_validation "i" 1 30
          (λ s. s)
          (some (holding empty (reclaimed ∷ other ∷ [])))).0
        ≡ answer
            (in_variant_mode empty
              && is_actionable reclaimed
              && attest_filter reclaimed.variation.validation reclaimed)
            1
            reclaimed)
unfolding build_item
answers_example =
    requests_are_answered empty reclaimed [] (other ∷ []) 1 30 question tt (refl, tt) refl

-- Others write during every attempt but the second.
abbrev rival : ℕ → Slot → Slot
rival n none = none
rival n (some b) = some (if n == 48 then b else record b { revision = b.revision + 1 })

retry_example :
    (submit_items_and_complete_batch [] "s" 50 rival (some (holding empty (other ∷ [])))).0
    ≡ done tt
retry_example =
    submit_lands [] "s" 50 rival (holding empty (other ∷ [])) 48 (λ n c. (_, refl)) (ground arith)
      (λ c. refl)

-- A second undo that read the batch before the first one: what an edit withdrew in between, the
-- confirmed source and its generation, is back beside the edited draft.
abbrev queued : Item
queued = record reclaimed {
  variation = record (reclaimed.variation) {
    status = VariationStatus.queued;
    claim_token = none;
    lease_until = none;
  };
}

abbrev reworded : DraftUpdate
reworded = record {
  text = some (some "What is 5 + 5?");
  problem_type = none;
  graph_dsl = none;
  correct_answer = none;
  subject = none;
  tags = none;
}

abbrev double_undo : List Step
double_undo =
    Step.blind (Write.delete "i" ItemState.ready 10)
    ∷ Step.loose (Loose.undo "i" 11) 0
    ∷ Step.guarded (Guarded.edit_draft "i" reworded 1 12) 0
    ∷ Step.blind (Write.delete "i" ItemState.ready 13)
    ∷ Step.loose (Loose.undo "i" 14) 3
    ∷ []

abbrev first_variation : Slot → Option (VariationStatus × Option Content × Option String)
first_variation none = none
first_variation (some b) = elim b.items [
  | [] ↦ none
  | i ∷ is ↦ some (i.variation.status, i.variation.original, i.draft.content.text)
]

stale_undo_test :
    first_variation (version 0 (run double_undo (record empty { items = queued ∷ [] } ∷ [])))
    ≡ some (VariationStatus.queued, some question, some "What is 5 + 5?")
unfolding run step act apply apply_loose apply_guarded build_item build_batch delete_from
    undo_item_deletion undo_seen undo_previous undo_to draft_attempt write_draft_variant merge_draft
    has_semantic_change without_space
stale_undo_test = refl

abbrev first_status : Slot → Option ItemState
first_status none = none
first_status (some b) = elim b.items [ [] ↦ none | i ∷ is ↦ some i.status ]

-- Deleting an image deletes an item of it that was submitted.
image_test :
    first_status
      (delete_batch_image "p" 10 (
        some (record empty {
          images = build_image "p" "s3://p" 0 1 ∷ [];
          items = record reclaimed { status = ItemState.submitted } ∷ [];
        }))).0
    ≡ some ItemState.deleted
unfolding delete_batch_image build_item build_batch build_image
image_test = refl
