-- ===== src/Ingestion/Variations.antt =====
-- The interactive writes on the variation of an item: a person generates, edits, revalidates or
-- attests. A write that a filter refuses is classified against a fresh read.
use learn_loop.Prelude.{
  ℕ, ◌+◌, Option, none, some, String, List, Bool, false, ◌&&◌, ◌||◌, not, is_some, any,
  if◌then◌else◌, ◌==◌, Result, ok, err,
}
use learn_loop.Assessment.{Validation, has_verdict}
use learn_loop.States.{ItemState, VariationStatus, is_variation_in_flight}
use learn_loop.Variants.Drafts.{Content, Candidate, no_content, has_semantic_change}
use learn_loop.Variants.Sessions.{is_reservable}
use learn_loop.Variants.Repository.{kind_not_in, has_first}
use learn_loop.Variants.Edit.{CandidateUpdate, merge, candidate_content}
use learn_loop.Ingestion.Documents.{
  Batch, Item, Draft, Workflow, Slot, item_in, workflow_in, find_item, is_variant_mode,
}
use learn_loop.Ingestion.Writes.{write_item}
use learn_loop.Ingestion.Images.{Attempt, done, lost, revision_guard}
use learn_loop.Ingestion.Items.{is_item, DraftUpdate, sent, merge_draft}

-- The exceptions of these writes; `batch_not_found` is the `ValueError` of a read without a batch.
pub data VariationError : Type 0 where
  batch_not_found item_not_found revision_mismatch generation_in_progress reserved_for_submission :
      VariationError
  invalid_variation_state : VariationError

-- `_classify_variation_conflict` always raises: its value is what it raises. The two texts of an
-- `InvalidVariationStateError` are two values.
unfoldable pub classify_variation_conflict : Option Item → ℕ → VariationError
unfolding is_variation_in_flight
classify_variation_conflict none expected_revision = item_not_found
classify_variation_conflict (some i) expected_revision =
    if not (i.content_revision == expected_revision)
    then revision_mismatch
    else if is_variation_in_flight i.variation.status
    then generation_in_progress
    else if is_some i.variation.submit_reservation
    then reserved_for_submission
    else invalid_variation_state

-- The fresh read after a refusal.
abbrev pub classify_fresh : String → ℕ → Slot → VariationError
unfolding classify_variation_conflict
classify_fresh id expected_revision none = batch_not_found
classify_fresh id expected_revision (some b) =
    classify_variation_conflict (find_item id b.items) expected_revision

-- `_VARIANT_MODE_PREDICATE` and `_ITEM_ACTIONABLE_PREDICATE`
abbrev pub in_variant_mode : Batch → Bool
in_variant_mode b = is_variant_mode b.mode

abbrev pub is_actionable : Item → Bool
is_actionable i = not (item_in ItemState.deleted i || item_in ItemState.submitted i)

unfoldable pub write_generation : String → Content → ℕ → ℕ → Slot → Slot × Bool
unfolding is_variation_in_flight
write_generation id original expected_revision now =
    write_item in_variant_mode
      (λ i.
        is_item id i
        && i.content_revision == expected_revision
        && not (is_variation_in_flight i.variation.status)
        && is_reservable i.variation.submit_reservation now
        && is_actionable i)
      (λ i. record i {
        draft = record { content = original; tags = i.draft.tags };
        variation = record {
          status = VariationStatus.queued;
          generation_count = i.variation.generation_count + 1;
          original = some original;
          candidate = none;
          validation = none;
          validated_revision = none;
          attestation = none;
          claim_token = none;
          lease_until = none;
          queued_at = some now;
          submit_reservation = none;
        };
        content_revision = i.content_revision + 1;
      })
      now

-- What a semantic change of the source leaves of the variation.
abbrev pub invalidated : Workflow → Workflow
invalidated v = record v {
  status = VariationStatus.not_requested;
  original = none;
  candidate = none;
  validation = none;
  validated_revision = none;
  attestation = none;
  claim_token = none;
  lease_until = none;
}

abbrev pub is_same_version : String → ℕ → Item → Bool
is_same_version id expected_revision i =
    is_item id i && i.content_revision == expected_revision && is_actionable i

abbrev pub redrafted : (Draft → Draft) → Bool → Item → Item
redrafted edit changed i = record i {
  draft = edit i.draft;
  variation = if changed then invalidated i.variation else i.variation;
  content_revision = if changed then i.content_revision + 1 else i.content_revision;
}

-- The guarded write of a draft edit, for the item `seen` of the batch that was read.
unfoldable pub write_draft_variant :
    String → DraftUpdate → ℕ → ℕ → Batch → Item → Slot → Slot × Bool
unfolding merge_draft has_semantic_change
write_draft_variant id u expected_revision now seen item =
    let changed = has_semantic_change item.draft.content (merge_draft u item.draft).content in
    write_item (revision_guard seen) (is_same_version id expected_revision)
      (redrafted (λ d. merge_draft u d) changed) now

abbrev pub landed_or : Slot × Bool → Attempt (Result VariationError (Unit {0})) × Slot
landed_or (slot, matched) = (if matched then done (ok tt) else lost, slot)

abbrev pub draft_found :
    String
    → DraftUpdate
    → ℕ
    → ℕ
    → Batch
    → Option Item
    → Slot
    → Attempt (Result VariationError (Unit {0})) × Slot
unfolding write_draft_variant
draft_found id u expected_revision now seen none slot = (done (err item_not_found), slot)
draft_found id u expected_revision now seen (some item) slot =
    if item.content_revision == expected_revision
    then landed_or (write_draft_variant id u expected_revision now seen item slot)
    else (done (err revision_mismatch), slot)

-- One turn of the loop of `update_item_draft_variant`, from the batch that it read.
unfoldable pub draft_attempt :
    String → DraftUpdate → ℕ → ℕ → Batch → Slot → Attempt (Result VariationError (Unit {0})) × Slot
unfolding write_draft_variant
draft_attempt id u expected_revision now seen slot =
    draft_found id u expected_revision now seen (find_item id seen.items) slot

-- `variation.get("candidate") or {}`
abbrev stored_candidate : Option Candidate → Candidate
stored_candidate none = record { content = no_content; generator = none }
stored_candidate (some c) = c

abbrev pub is_editable : Item → Bool
is_editable i =
    workflow_in VariationStatus.ready i
    || workflow_in VariationStatus.needs_validation i
    || workflow_in VariationStatus.failed i

abbrev pub recandidated : Candidate → Bool → Option (List String) → Item → Item
recandidated merged changed tags i = record i {
  variation = record (i.variation) {
    candidate = some merged;
    status = if changed then VariationStatus.needs_validation else i.variation.status;
    validated_revision = if changed then none else i.variation.validated_revision;
    attestation = if changed then none else i.variation.attestation;
  };
  content_revision = if changed then i.content_revision + 1 else i.content_revision;
  draft = record { content = i.draft.content; tags = sent tags i.draft.tags };
}

-- The guarded write of a candidate edit, for the item of the batch that was read.
unfoldable pub write_candidate :
    String → CandidateUpdate → Option (List String) → ℕ → ℕ → Batch → Item → Slot → Slot × Bool
unfolding has_semantic_change
write_candidate id u tags expected_revision now seen item =
    let merged = merge (stored_candidate item.variation.candidate) u in
    let changed = has_semantic_change (candidate_content item.variation.candidate) merged.content in
    write_item (revision_guard seen) (λ i. is_same_version id expected_revision i && is_editable i)
      (recandidated merged changed tags) now

unfoldable pub write_revalidation : String → ℕ → ℕ → Slot → Slot × Bool
write_revalidation id expected_revision now =
    write_item in_variant_mode
      (λ i.
        is_same_version id expected_revision i && workflow_in VariationStatus.needs_validation i)
      (λ i. record i {
        variation = record (i.variation) {
          status = VariationStatus.queued;
          validation = none;
          validated_revision = none;
          attestation = none;
          queued_at = some now;
          claim_token = none;
          lease_until = none;
        };
      })
      now

-- The `$or` of the attestation filter, over a validation that may be null.
abbrev pub attest_filter : Option Validation → Item → Bool
attest_filter none i = false
attest_filter (some v) i =
    (workflow_in VariationStatus.needs_validation i && has_verdict "pass" v)
    || ((workflow_in VariationStatus.needs_validation i || workflow_in VariationStatus.failed i)
        && has_verdict "fail" v
        && has_first v.failures
        && not (any kind_not_in v.failures))

unfoldable pub write_attestation : String → ℕ → ℕ → Slot → Slot × Bool
write_attestation id expected_revision now =
    write_item in_variant_mode
      (λ i. is_same_version id expected_revision i && attest_filter i.variation.validation i)
      (λ i. record i {
        variation = record (i.variation) {
          status = VariationStatus.ready;
          attestation = some (record { revision = expected_revision; at = now });
        };
      })
      now
