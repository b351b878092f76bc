-- ===== src/Ingestion/Work.antt =====
-- The writes of a variation worker: it claims an item with a token and a lease, and lands a
-- candidate and a verdict while it holds both.
use learn_loop.Prelude.{
  ℕ, ◌+◌, Option, none, some, String, Bool, true, false, ◌&&◌, ◌||◌, not, is_some, str_eq, ◌==◌,
  ltb, if◌then◌else◌,
}
use learn_loop.States.{VariationStatus, is_variation_in_flight}
use learn_loop.Assessment.{Validation}
use learn_loop.Variants.Drafts.{Candidate}
use learn_loop.Variants.Repository.{Verdict, pass, fail, landed_status}
use learn_loop.Ingestion.Documents.{Batch, Item, Slot, workflow_in, find_item}
use learn_loop.Ingestion.Writes.{write_item}
use learn_loop.Ingestion.Items.{is_item, has_expired}
use learn_loop.Ingestion.Submits.{is_live_batch}
use learn_loop.Ingestion.Variations.{is_actionable, in_variant_mode}

-- Whether both have a candidate or neither has one.
abbrev same_presence : Bool → Bool → Bool
same_presence true b = b
same_presence false b = not b

abbrev pub is_workable : String → Item → ℕ → Item → Bool
is_workable id seen now i =
    is_item id i
    && i.content_revision == seen.content_revision
    && is_actionable i
    && is_variation_in_flight i.variation.status
    && (workflow_in VariationStatus.queued i || has_expired i.variation.lease_until now)
    && same_presence (is_some seen.variation.candidate) (is_some i.variation.candidate)

-- The write of a claim, for the item that was read; the token is fresh.
unfoldable pub write_claim : String → String → ℕ → ℕ → Item → Slot → Slot × Bool
unfolding is_variation_in_flight
write_claim id token lease_timeout now seen =
    write_item (λ b. is_live_batch now b && in_variant_mode b) (is_workable id seen now)
      (λ i. record i {
        variation = record (i.variation) {
          status =
              if is_some seen.variation.candidate
              then VariationStatus.validating
              else VariationStatus.generating;
          claim_token = some token;
          lease_until = some (now + lease_timeout);
        };
      })
      now

abbrev pub claim_seen : String → String → ℕ → ℕ → Option Item → Slot → Slot × Bool
unfolding write_claim is_variation_in_flight
claim_seen id token lease_timeout now none slot = (slot, false)
claim_seen id token lease_timeout now (some i) slot =
    if is_variation_in_flight i.variation.status
    then write_claim id token lease_timeout now i slot
    else (slot, false)

-- `seen` is the batch that was read.
unfoldable pub claim_variation_work : String → String → ℕ → ℕ → Batch → Slot → Slot × Bool
unfolding write_claim is_variation_in_flight
claim_variation_work id token lease_timeout now seen slot =
    claim_seen id token lease_timeout now (find_item id seen.items) slot

abbrev pub has_token : String → Option String → Bool
has_token token none = false
has_token token (some t) = str_eq t token

abbrev pub runs_until : ℕ → Option ℕ → Bool
runs_until now none = false
runs_until now (some t) = ltb now t

-- The caller holds the claim, and its lease runs.
abbrev pub owns : String → String → ℕ → Item → Bool
owns id token now i =
    is_item id i
    && has_token token i.variation.claim_token
    && runs_until now i.variation.lease_until
    && is_actionable i

abbrev pub is_running : Item → Bool
is_running i = workflow_in VariationStatus.generating i || workflow_in VariationStatus.validating i

unfoldable pub renew_variation_lease : String → String → ℕ → ℕ → Slot → Slot × Bool
renew_variation_lease id token lease_timeout now =
    write_item (is_live_batch now) (λ i. owns id token now i && is_running i)
      (λ i. record i {
        variation = record (i.variation) { lease_until = some (now + lease_timeout) };
      })
      now

unfoldable pub save_variation_candidate_checkpoint :
    String → String → ℕ → Candidate → ℕ → Slot → Slot × Bool
save_variation_candidate_checkpoint id token claimed_revision candidate now =
    write_item (is_live_batch now)
      (λ i.
        owns id token now i
        && workflow_in VariationStatus.generating i
        && i.content_revision == claimed_revision)
      (λ i. record i {
        variation = record (i.variation) {
          candidate = some candidate;
          status = VariationStatus.validating;
        };
      })
      now

abbrev validated : Verdict → ℕ → Option ℕ → Option ℕ
validated pass claimed_revision old = some claimed_revision
validated fail claimed_revision old = old

-- The verdicts but `pass` and `fail`, which raise before any write, have no value here.
unfoldable pub save_variation_result :
    String → String → ℕ → Verdict → Validation → Bool → ℕ → Slot → Slot × Bool
unfolding landed_status
save_variation_result id token claimed_revision verdict validation candidate_present now =
    write_item (is_live_batch now)
      (λ i. owns id token now i && is_running i && i.content_revision == claimed_revision)
      (λ i. record i {
        variation = record (i.variation) {
          status = landed_status verdict candidate_present validation;
          validation = some validation;
          claim_token = none;
          lease_until = none;
          validated_revision = validated verdict claimed_revision i.variation.validated_revision;
        };
      })
      now
