-- ===== src/Ingestion/History.antt =====
-- Any interleaving of the repository's writes on one batch. A history holds the versions of the
-- document, newest first, so that a write may use what its caller read any number of versions ago.
use learn_loop.Prelude.{
  ℕ, suc, Option, none, some, String, List, [], ◌∷◌, Bool, ◌==◌, if◌then◌else◌,
}
use learn_loop.States.{ItemState}
use learn_loop.Assessment.{Validation}
use learn_loop.Variants.Drafts.{Content, Candidate}
use learn_loop.Variants.Edit.{CandidateUpdate}
use learn_loop.Variants.Repository.{Verdict}
use learn_loop.Ingestion.Documents.{Batch, Item, Draft, Extracted, Slot, find_item}
use learn_loop.Ingestion.Images.{
  add_source_image, add_items_for_image, start_image_detection, save_detection_success,
  save_detection_failure, save_boxes_and_subject, delete_batch_image, commit_attempt,
}
use learn_loop.Ingestion.Items.{
  DraftUpdate, claim_item, save_extraction_success, save_extraction_failure, restore_ready, requeue,
  update_item_draft,
}
use learn_loop.Ingestion.Deletion.{delete_from, undo_item_deletion}
use learn_loop.Ingestion.Submits.{
  ItemResult, reserve_item, renew_submit_reservation, submit_attempt, record_variant_submission,
  complete_attempt, mark_batch_cleaned,
}
use learn_loop.Ingestion.Variations.{
  write_generation, draft_attempt, write_candidate, write_revalidation, write_attestation,
}
use learn_loop.Ingestion.Work.{
  claim_variation_work, renew_variation_lease, save_variation_candidate_checkpoint,
  save_variation_result,
}

-- A write whose change depends only on the document that it finds.
pub data Write : Type 0 where
  add_image : String → String → ℕ → ℕ → Write
  add_items : (ℕ → String) → String → ℕ → ℕ → ℕ → Write
  detect : String → ℕ → Write
  detected : String → String → List String → String → Option String → ℕ → Write
  detect_failed : String → String → String → ℕ → Write
  boxes : String → Option String → List String → ℕ → Write
  delete_image : String → ℕ → Write
  claim : String → ℕ → ℕ → Write
  extracted : String → String → Draft → Extracted → Option ℕ → ℕ → Write
  extract_failed : String → Extracted → Option ℕ → ℕ → Write
  restore : String → ℕ → Write
  requeued : String → ℕ → Write
  draft : String → DraftUpdate → ℕ → Write
  delete : String → ItemState → ℕ → Write
  reserve : String → String → ℕ → Write
  renew : String → String → ℕ → Write
  submitted : String → String → ℕ → Write
  cleaned : ℕ → Write
  generate : String → Content → ℕ → ℕ → Write
  revalidate : String → ℕ → ℕ → Write
  attest : String → ℕ → ℕ → Write
  renew_lease : String → String → ℕ → ℕ → Write
  checkpoint : String → String → ℕ → Candidate → ℕ → Write
  result : String → String → ℕ → Verdict → Validation → Bool → ℕ → Write

unfoldable pub apply : Write → Slot → Slot × Bool
unfolding add_source_image add_items_for_image start_image_detection save_detection_success
    save_detection_failure save_boxes_and_subject delete_batch_image claim_item
    save_extraction_success save_extraction_failure restore_ready requeue update_item_draft
    delete_from reserve_item renew_submit_reservation record_variant_submission mark_batch_cleaned
    write_generation write_revalidation write_attestation renew_variation_lease
    save_variation_candidate_checkpoint save_variation_result
apply (Write.add_image id source order now) = add_source_image id source order now
apply (Write.add_items ids id n order now) = add_items_for_image ids id n order now
apply (Write.detect id now) = start_image_detection id now
apply (Write.detected id subject found model raw now) =
    save_detection_success id subject found model raw now
apply (Write.detect_failed id code message now) = save_detection_failure id code message now
apply (Write.boxes id subject found now) = save_boxes_and_subject id subject found now
apply (Write.delete_image id now) = delete_batch_image id now
apply (Write.claim id timeout now) = claim_item id timeout now
apply (Write.extracted id crop given extraction lease now) =
    save_extraction_success id crop given extraction lease now
apply (Write.extract_failed id extraction lease now) =
    save_extraction_failure id extraction lease now
apply (Write.restore id now) = restore_ready id now
apply (Write.requeued id now) = requeue id now
apply (Write.draft id u now) = update_item_draft id u now
apply (Write.delete id status now) = delete_from id status now
apply (Write.reserve id token now) = reserve_item id token now
apply (Write.renew id token now) = renew_submit_reservation id token now
apply (Write.submitted id problem now) = record_variant_submission id problem now
apply (Write.cleaned now) = mark_batch_cleaned now
apply (Write.generate id original r now) = write_generation id original r now
apply (Write.revalidate id r now) = write_revalidation id r now
apply (Write.attest id r now) = write_attestation id r now
apply (Write.renew_lease id token timeout now) = renew_variation_lease id token timeout now
apply (Write.checkpoint id token r c now) = save_variation_candidate_checkpoint id token r c now
apply (Write.result id token r verdict v present now) =
    save_variation_result id token r verdict v present now

-- A write computed from a batch that was read before, and guarded by its revision.
pub data Guarded : Type 0 where
  commit : (ℕ → String) → String → ℕ → Guarded
  submit : List ItemResult → String → ℕ → Guarded
  complete : ℕ → Guarded
  edit_draft : String → DraftUpdate → ℕ → ℕ → Guarded
  edit_candidate : String → CandidateUpdate → Option (List String) → ℕ → ℕ → Guarded

unfoldable pub candidate_found :
    String → CandidateUpdate → Option (List String) → ℕ → ℕ → Batch → Option Item → Slot → Slot
unfolding write_candidate
candidate_found id u tags r now seen none slot = slot
candidate_found id u tags r now seen (some item) slot =
    (write_candidate id u tags r now seen item slot).0

unfoldable pub apply_guarded : Guarded → Batch → Slot → Slot
unfolding commit_attempt submit_attempt complete_attempt draft_attempt candidate_found
apply_guarded (Guarded.commit ids id now) seen slot = (commit_attempt ids id now seen slot).1
apply_guarded (Guarded.submit results token now) seen slot =
    (submit_attempt results token now seen slot).1
apply_guarded (Guarded.complete now) seen slot = (complete_attempt now seen slot).1
apply_guarded (Guarded.edit_draft id u r now) seen slot = (draft_attempt id u r now seen slot).1
apply_guarded (Guarded.edit_candidate id u tags r now) seen slot =
    candidate_found id u tags r now seen (find_item id seen.items) slot

-- A write that uses a batch that was read before without the guard of its revision.
pub data Loose : Type 0 where
  undo : String → ℕ → Loose
  claim_work : String → String → ℕ → ℕ → Loose

unfoldable pub apply_loose : Loose → Batch → Slot → Slot
unfolding undo_item_deletion claim_variation_work
apply_loose (Loose.undo id now) seen slot = (undo_item_deletion id now seen slot).0
apply_loose (Loose.claim_work id token timeout now) seen slot =
    (claim_variation_work id token timeout now seen slot).0

-- A step of a history; the number says how many versions ago the batch was read.
pub data Step : Type 0 where
  blind : Write → Step
  guarded : Guarded → ℕ → Step
  loose : Loose → ℕ → Step

abbrev pub version : ℕ → List Batch → Option Batch
version k [] = none
version ℕ.zero (b ∷ older) = some b
version (suc k) (b ∷ older) = version k older

abbrev pub from_seen : (Batch → Slot → Slot) → Option Batch → Slot → Slot
from_seen act none slot = slot
from_seen act (some seen) slot = act seen slot

-- What a step makes of the newest version.
unfoldable pub act : Step → Batch → List Batch → Slot
unfolding apply apply_guarded apply_loose
act (Step.blind w) b older = (apply w (some b)).0
act (Step.guarded g k) b older = from_seen (apply_guarded g) (version k (b ∷ older)) (some b)
act (Step.loose l k) b older = from_seen (apply_loose l) (version k (b ∷ older)) (some b)

-- A document of another revision is a new version.
abbrev pub push : Slot → Batch → List Batch → List Batch
push none b older = b ∷ older
push (some c) b older = if c.revision == b.revision then b ∷ older else c ∷ b ∷ older

unfoldable pub step : Step → List Batch → List Batch
unfolding act
step s [] = []
step s (b ∷ older) = push (act s b older) b older

unfoldable pub run : List Step → List Batch → List Batch
unfolding step
run [] h = h
run (s ∷ steps) h = run steps (step s h)

-- A property of histories that every step keeps holds after any steps.
module _ (P : List Batch → Type 0) (keep : (s : Step) (h : List Batch) → P h → P (step s h)) where
  pub run_induction : (steps : List Step) (h : List Batch) → P h → P (run steps h)
  unfolding run
  run_induction [] h p = p
  run_induction (s ∷ steps) h p = run_induction steps (step s h) (keep s h p)
