-- ===== src/Ingestion/Answers.antt =====
-- What an interactive request on the variation of an item is answered, on every branch.
use learn_loop.Prelude.{
  ℕ, none, some, String, List, ◌∷◌, ◌++◌, Bool, true, not, is_some, ◌&&◌, ◌≡◌, ◌==◌, refl, arith,
  if◌then◌else◌, Result, ok, err,
}
use learn_loop.States.{VariationStatus, is_variation_in_flight}
use learn_loop.Variants.Drafts.{Content}
use learn_loop.Variants.Sessions.{is_reservable}
use learn_loop.Ingestion.Documents.{Batch, Item, Slot, find_item, workflow_in}
use learn_loop.Ingestion.Writes.{write_item}
use learn_loop.Ingestion.Items.{is_item}
use learn_loop.Ingestion.Variations.{
  VariationError, revision_mismatch, generation_in_progress, reserved_for_submission,
  invalid_variation_state, classify_variation_conflict, write_generation, write_revalidation,
  write_attestation, in_variant_mode, is_actionable, is_same_version, attest_filter,
}
use learn_loop.Ingestion.Requests.{
  request, request_variation_generation, request_variation_revalidation,
  attest_variation_validation,
}
use learn_loop.Ingestion.Only.{Others, holding, any-Only, find_item-Only}

-- What a request may be told of an item at the expected revision that it may not change.
abbrev pub refusal : Item → VariationError
refusal i =
    if is_variation_in_flight i.variation.status
    then generation_in_progress
    else if is_some i.variation.submit_reservation
    then reserved_for_submission
    else invalid_variation_state

-- The rule of the answers: a stale revision first, then work in flight, then whether the action is
-- allowed, then why it is not.
abbrev pub answer : Bool → ℕ → Item → Result VariationError (Unit {0})
answer allowed r i =
    if not (i.content_revision == r)
    then err revision_mismatch
    else if allowed
    then ok tt
    else err (refusal i)

module _ (b : Batch) (i : Item) (pre post : List Item) (r now : ℕ) where
  abbrev the_batch : Slot
  the_batch = some (holding b (pre ++ (i ∷ post)))

  version_answer :
      (id : String) (allowed : Item → Bool) (change : Item → Item)
      → Others id pre
      → Others id post
      → is_item id i ≡ true
      → i.item_id ≡ id
      → (request
          (write_item in_variant_mode (λ j. is_same_version id r j && allowed j) change now)
          id
          r
          (λ s. s)
          the_batch).0
        ≡ answer (in_variant_mode b && is_actionable i && allowed i) r i
  unfolding classify_variation_conflict
  version_answer id allowed change before after named same = ground (
    arith,
    named,
    find_item-Only id i pre post before named,
    any-Only id (λ (j : Item). is_same_version id r j && allowed j) (λ j e. ground arith) i pre post
        before after,
  )

  -- With no other write in between, and in a batch in which one item has the id: a generation is
  -- granted exactly where the revision is the expected one, no work is in flight, no live submission
  -- holds the item, the batch is one of variants and the item is neither deleted nor submitted; a
  -- revalidation where the candidate needs validation, and an attestation where the stored report
  -- may be overridden. Every other request is told the first of the reasons that apply: a stale
  -- revision, work in flight, a reservation, or the state of the item.
  pub requests_are_answered :
      (original : Content)
      → Others i.item_id pre
      → Others i.item_id post
      → is_item i.item_id i ≡ true
      → ((request_variation_generation i.item_id original r now (λ s. s) the_batch).0
          ≡ answer
              (in_variant_mode b
                && not (is_variation_in_flight i.variation.status)
                && is_reservable i.variation.submit_reservation now
                && is_actionable i)
              r
              i)
        × ((request_variation_revalidation i.item_id r now (λ s. s) the_batch).0
            ≡ answer
                (in_variant_mode b
                  && is_actionable i
                  && workflow_in VariationStatus.needs_validation i)
                r
                i)
        × ((attest_variation_validation i.item_id r now (λ s. s) the_batch).0
            ≡ answer
                (in_variant_mode b && is_actionable i && attest_filter i.variation.validation i)
                r
                i)
  unfolding request_variation_generation request_variation_revalidation attest_variation_validation
      write_generation write_revalidation write_attestation classify_variation_conflict
  requests_are_answered original before after named = (
    ground (
      arith,
      named,
      found,
      any-Only i.item_id
          (λ (j : Item).
            is_item i.item_id j
            && j.content_revision == r
            && not (is_variation_in_flight j.variation.status)
            && is_reservable j.variation.submit_reservation now
            && is_actionable j)
          (λ j e. ground arith) i pre post before after,
    ),
    version_answer i.item_id (workflow_in VariationStatus.needs_validation)
        (λ j. record j {
          variation = record (j.variation) {
            status = VariationStatus.queued;
            validation = none;
            validated_revision = none;
            attestation = none;
            queued_at = some now;
            claim_token = none;
            lease_until = none;
          };
        })
        before after named refl,
    version_answer i.item_id (λ j. attest_filter j.variation.validation j)
        (λ j. record j {
          variation = record (j.variation) {
            status = VariationStatus.ready;
            attestation = some (record { revision = r; at = now });
          };
        })
        before after named refl,
  )
    where
      found : find_item i.item_id (pre ++ (i ∷ post)) ≡ some i
      found = find_item-Only i.item_id i pre post before named
