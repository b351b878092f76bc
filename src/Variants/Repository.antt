-- ===== src/Variants/Repository.antt =====
-- The repository's writes, one function each: the filter, then the change. What the functions take
-- for `now`, `token` and the like the callers read from the clock and `uuid4`.
mod Submission
unfoldable pub use Submission.*
use learn_loop.Prelude.{
  ℕ, ◌+◌, Option, none, some, String, List, Bool, true, false, ◌&&◌, ◌||◌, not, is_some, any,
  str_eq, ltb, ◌==◌, if◌then◌else◌, update_one,
}
use learn_loop.States.{VariationStatus}
use learn_loop.Assessment.{Validation, StoredFailure, has_verdict, is_execution_only_failure}
use learn_loop.Variants.Drafts.{Content, Candidate}
use learn_loop.Variants.Sessions.{Session, Slot, Reservation, is_live, has_status, is_reservable}

unfoldable pub build_session : String → ℕ → String → Content → List String → ℕ → Session
build_session problem_id user_id mode original tags now = record {
  problem_id = problem_id;
  user_id = user_id;
  mode = mode;
  content_revision = 0;
  tags = tags;
  variation = record {
    status = VariationStatus.queued;
    generation_count = 1;
    original = original;
    candidate = none;
    validation = none;
    validated_revision = none;
    attestation = none;
    submit_reservation = none;
    queued_at = now;
  };
  submit = none;
  discarded_at = none;
  created_at = now;
  updated_at = now;
}

pub data VariantError : Type 0 where
  variation_not_found revision_mismatch invalid_variation_state : VariantError

-- `classify_session_conflict` always raises: its value is what it raises.
unfoldable pub classify_session_conflict : Slot → ℕ → VariantError
classify_session_conflict none expected_revision = variation_not_found
classify_session_conflict (some s) expected_revision =
    if is_some s.discarded_at
    then variation_not_found
    else if not (s.content_revision == expected_revision)
    then revision_mismatch
    else invalid_variation_state

unfoldable pub claim_generation : ℕ → ℕ → Slot → Slot × Bool
claim_generation claimed_revision now =
    update_one
      (λ s.
        is_live s && has_status VariationStatus.queued s && s.content_revision == claimed_revision)
      (λ s. record s {
        variation = record (s.variation) { status = VariationStatus.generating };
        updated_at = now;
      })

-- The `$in` of `request_problem_variant_generation`: every status but `not-requested`.
abbrev is_regenerable : VariationStatus → Bool
is_regenerable VariationStatus.not_requested = false
is_regenerable _ = true

unfoldable pub request_generation : ℕ → ℕ → Slot → Slot × Bool
request_generation expected_revision now =
    update_one
      (λ s.
        s.content_revision == expected_revision
        && is_live s
        && is_regenerable s.status
        && is_reservable s.submit_reservation now)
      (λ s. record s {
        variation = record (s.variation) {
          status = VariationStatus.queued;
          candidate = none;
          validation = none;
          validated_revision = none;
          attestation = none;
          queued_at = now;
          submit_reservation = none;
          generation_count = s.generation_count + 1;
        };
        content_revision = s.content_revision + 1;
        updated_at = now;
      })

unfoldable pub request_revalidation : ℕ → ℕ → Slot → Slot × Bool
request_revalidation expected_revision now =
    update_one
      (λ s.
        s.content_revision == expected_revision
        && is_live s
        && has_status VariationStatus.needs_validation s)
      (λ s. record s {
        variation = record (s.variation) {
          status = VariationStatus.queued;
          validation = none;
          validated_revision = none;
          attestation = none;
          queued_at = now;
        };
        updated_at = now;
      })

-- `{"kind": {"$nin": ["check", "answer"]}}` of one stored failure; a missing kind is not in.
abbrev pub kind_not_in : StoredFailure → Bool
kind_not_in f = elim f.kind [ none ↦ true | some k ↦ not (str_eq k "check" || str_eq k "answer") ]

abbrev pub has_first : List StoredFailure → Bool
has_first List.[] = false
has_first (List.◌∷◌ f fs) = true

-- The `$or` of the attestation filter, over a validation that may be null.
abbrev pub attest_filter : Option Validation → Session → Bool
attest_filter none s = false
attest_filter (some v) s =
    (has_status VariationStatus.needs_validation s && has_verdict "pass" v)
    || ((has_status VariationStatus.needs_validation s || has_status VariationStatus.failed s)
        && has_verdict "fail" v
        && has_first v.failures
        && not (any kind_not_in v.failures))

unfoldable pub attest_validation : ℕ → ℕ → Slot → Slot × Bool
attest_validation expected_revision now =
    update_one
      (λ s. s.content_revision == expected_revision && is_live s && attest_filter s.validation s)
      (λ s. record s {
        variation = record (s.variation) {
          status = VariationStatus.ready;
          attestation = some (record { revision = expected_revision; at = now });
        };
        updated_at = now;
      })

unfoldable pub save_checkpoint : ℕ → Candidate → ℕ → Slot → Slot × Bool
save_checkpoint claimed_revision candidate now =
    update_one
      (λ s.
        s.content_revision == claimed_revision
        && is_live s
        && has_status VariationStatus.generating s)
      (λ s. record s {
        variation = record (s.variation) {
          candidate = some candidate;
          status = VariationStatus.validating;
        };
        updated_at = now;
      })

-- The verdict that a run lands; any other text makes `save_problem_variant_result` raise.
pub data Verdict : Type 0 where
  pass fail : Verdict

-- The status that a verdict lands in.
unfoldable pub landed_status : Verdict → Bool → Validation → VariationStatus
landed_status pass candidate_present validation = VariationStatus.ready
landed_status fail candidate_present validation =
    if candidate_present && is_execution_only_failure (some validation)
    then VariationStatus.needs_validation
    else VariationStatus.failed

abbrev landed_revision : Verdict → ℕ → Option ℕ → Option ℕ
landed_revision pass claimed_revision old = some claimed_revision
landed_revision fail claimed_revision old = old

unfoldable pub save_result : ℕ → Verdict → Validation → Bool → ℕ → Slot → Slot × Bool
unfolding landed_status
save_result claimed_revision verdict validation candidate_present now =
    update_one
      (λ s.
        s.content_revision == claimed_revision
        && is_live s
        && (has_status VariationStatus.generating s || has_status VariationStatus.validating s))
      (λ s. record s {
        variation = record (s.variation) {
          status = landed_status verdict candidate_present validation;
          validation = some validation;
          validated_revision = landed_revision verdict claimed_revision s.validated_revision;
        };
        updated_at = now;
      })

unfoldable pub update_tags : List String → ℕ → Slot → Slot × Bool
update_tags tags now = update_one is_live (λ s. record s { tags = tags; updated_at = now })

unfoldable pub discard : ℕ → ℕ → Slot → Slot × Bool
discard expected_revision now =
    update_one (λ s. s.content_revision == expected_revision && is_live s)
      (λ s. record s { discarded_at = some now; updated_at = now })
