-- ===== src/Ingestion/Requests.antt =====
-- The interactive writes with the reads around them: each first reads the batch, and answers a
-- refused write by what a later read finds.
use learn_loop.Prelude.{ℕ, Option, none, some, String, List, Bool, Result, ok, err, if◌then◌else◌}
use learn_loop.Variants.Drafts.{Content}
use learn_loop.Variants.Edit.{CandidateUpdate}
use learn_loop.Ingestion.Documents.{Batch, Item, Slot, find_item}
use learn_loop.Ingestion.Variations.{
  VariationError, batch_not_found, item_not_found, classify_fresh, write_generation,
  write_candidate, write_revalidation, write_attestation, classify_variation_conflict,
}

-- The first read needs a batch; others may write before the last read (`later`).
abbrev answered : (Slot → Slot) → String → ℕ → Slot × Bool → Result VariationError (Unit {0}) × Slot
unfolding classify_variation_conflict
answered later id expected_revision (slot, matched) =
    (if matched then ok tt else err (classify_fresh id expected_revision (later slot)), later slot)

abbrev pub request :
    (Slot → Slot × Bool)
    → String
    → ℕ
    → (Slot → Slot)
    → Slot
    → Result VariationError (Unit {0}) × Slot
unfolding classify_variation_conflict
request write id expected_revision later none = (err batch_not_found, none)
request write id expected_revision later (some b) =
    answered later id expected_revision (write (some b))

unfoldable pub request_variation_generation :
    String → Content → ℕ → ℕ → (Slot → Slot) → Slot → Result VariationError (Unit {0}) × Slot
unfolding write_generation classify_variation_conflict
request_variation_generation id original expected_revision now later =
    request (write_generation id original expected_revision now) id expected_revision later

unfoldable pub request_variation_revalidation :
    String → ℕ → ℕ → (Slot → Slot) → Slot → Result VariationError (Unit {0}) × Slot
unfolding write_revalidation classify_variation_conflict
request_variation_revalidation id expected_revision now later =
    request (write_revalidation id expected_revision now) id expected_revision later

unfoldable pub attest_variation_validation :
    String → ℕ → ℕ → (Slot → Slot) → Slot → Result VariationError (Unit {0}) × Slot
unfolding write_attestation classify_variation_conflict
attest_variation_validation id expected_revision now later =
    request (write_attestation id expected_revision now) id expected_revision later

abbrev edit_found :
    String
    → CandidateUpdate
    → Option (List String)
    → ℕ
    → ℕ
    → Batch
    → Option Item
    → (Slot → Slot)
    → Slot
    → Result VariationError (Unit {0}) × Slot
unfolding write_candidate classify_variation_conflict
edit_found id u tags expected_revision now seen none later slot = (err item_not_found, slot)
edit_found id u tags expected_revision now seen (some item) later slot =
    answered later id expected_revision
      (write_candidate id u tags expected_revision now seen item slot)

-- A write that matches returns and a refused one always raises, so the loop has one turn. `seen` is
-- what the read found and `slot` the document at the write.
unfoldable pub edit_variation_candidate :
    String
    → CandidateUpdate
    → Option (List String)
    → ℕ
    → ℕ
    → Slot
    → (Slot → Slot)
    → Slot
    → Result VariationError (Unit {0}) × Slot
unfolding write_candidate classify_variation_conflict
edit_variation_candidate id u tags expected_revision now none later slot =
    (err batch_not_found, slot)
edit_variation_candidate id u tags expected_revision now (some seen) later slot =
    edit_found id u tags expected_revision now seen (find_item id seen.items) later slot
