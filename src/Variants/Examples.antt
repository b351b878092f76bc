-- ===== src/Variants/Examples.antt =====
-- The theorems on sessions at concrete sessions and writes.
use learn_loop.Prelude.{
  ◌≡◌, refl, some, none, [], ◌∷◌, true, false, ok, ◌&&◌, ◌||◌, ◌==◌, arith, Option,
}
use learn_loop.States.{VariationStatus}
use learn_loop.Assessment.{Validation, is_attestable}
use learn_loop.Variants.Drafts.{Content, Candidate, no_content, has_semantic_change}
use learn_loop.Variants.Sessions.{Session, is_live, has_status}
use learn_loop.Variants.Repository.{
  build_session, pass, claim_generation, request_generation, attest_validation, save_checkpoint,
  save_result, reserve_for_submit, mark_submitted,
}
use learn_loop.Variants.Edit.{
  CandidateUpdate, edit_candidate, merge, base_candidate, candidate_content,
}
use learn_loop.Variants.Run.{Op, run, Holds}
use learn_loop.Variants.Invariant.{IsSound, run-IsSound}
use learn_loop.Variants.Fencing.{
  superseded_run_is_fenced, SameOutcome, run-SameOutcome, submitted_once,
}
use learn_loop.Variants.Reservations.{reservation_excludes}
use learn_loop.Variants.Attest.{attest-eq-is_attestable}
use learn_loop.Variants.EditLaws.{Edited, edit_lem, edit_drops_candidate}

abbrev question : Content
question = record no_content { text = some "What is 2 + 2?"; correct_answer = some "4" }

abbrev drawn : Candidate
drawn = record { content = record question { text = some "What is 3 + 3?" }; generator = none }

abbrev passed : Validation
passed = record { verdict = some "pass"; failures = [] }

abbrev disputed : Validation
disputed = record {
  verdict = some "fail";
  failures = record { kind = some "answer"; evidence = "the answers differ" } ∷ [];
}

abbrev created : Session
created = build_session "p1" 7 "practice" question ("algebra" ∷ []) 10

-- The session in a status, with a candidate and a validation.
abbrev staged : VariationStatus → Option Candidate → Option Validation → Session
staged status candidate validation = record {
  problem_id = "p1";
  user_id = 7;
  mode = "practice";
  content_revision = 0;
  tags = [];
  variation = record {
    status = status;
    generation_count = 1;
    original = question;
    candidate = candidate;
    validation = validation;
    validated_revision = none;
    attestation = none;
    submit_reservation = none;
    queued_at = 10;
  };
  submit = none;
  discarded_at = none;
  created_at = 10;
  updated_at = 10;
}

abbrev ready_session : Session
ready_session = staged VariationStatus.ready (some drawn) (some passed)

run-IsSound_example : Holds IsSound (
    run
      (Op.claim 0 11
        ∷ Op.checkpoint 0 drawn 12
        ∷ Op.result 0 pass passed true 13
        ∷ Op.generate 0 14
        ∷ [])
      (some created))
run-IsSound_example = run-IsSound "p1" 7 "practice" question ("algebra" ∷ []) 10 (
    Op.claim 0 11
    ∷ Op.checkpoint 0 drawn 12
    ∷ Op.result 0 pass passed true 13
    ∷ Op.generate 0 14
    ∷ [])

fenced_example :
    let slot = run (Op.claim 1 12 ∷ []) (request_generation 0 11 (some ready_session)).0 in
    (claim_generation 0 13 slot ≡ (slot, false))
    × (save_checkpoint 0 drawn 13 slot ≡ (slot, false))
    × (save_result 0 pass passed true 13 slot ≡ (slot, false))
unfolding request_generation
fenced_example =
    superseded_run_is_fenced 0 11 13 ready_session (Op.claim 1 12 ∷ []) drawn pass passed true refl

abbrev discarded : Session
discarded = record ready_session { discarded_at = some 20 }

ended_example :
    Holds
      (SameOutcome discarded)
      (run (Op.generate 0 21 ∷ Op.submit "p2" 0 none 22 ∷ []) (some discarded))
ended_example = run-SameOutcome discarded (Op.generate 0 21 ∷ Op.submit "p2" 0 none 22 ∷ []) refl

submitted_once_example :
    let slot = run (Op.generate 0 21 ∷ []) (mark_submitted "p2" 0 none 20 (some ready_session)).0 in
    mark_submitted "p3" 0 none 22 slot ≡ (slot, false)
unfolding mark_submitted
submitted_once_example =
    submitted_once "p2" "p3" 0 0 none none 20 22 ready_session (Op.generate 0 21 ∷ []) refl

reservation_example :
    let slot =
      run
        (Op.generate 0 21 ∷ Op.renew "a" 22 ∷ [])
        (reserve_for_submit 0 "a" 20 (some ready_session)).0 in
    (reserve_for_submit 0 "b" 30 slot ≡ (slot, false))
    × (request_generation 0 30 slot ≡ (slot, false))
unfolding reserve_for_submit
reservation_example =
    reservation_excludes "a" "b" 20 30 0 0 ready_session (Op.generate 0 21 ∷ Op.renew "a" 22 ∷ [])
      refl refl (omega arith)

abbrev refused : Session
refused = staged VariationStatus.failed (some drawn) (some disputed)

attest_example : (attest_validation 0 20 (some refused)).1 ≡ (
    refused.content_revision == 0
    && is_live refused
    && (has_status VariationStatus.needs_validation refused
        || has_status VariationStatus.failed refused)
    && is_attestable (some disputed))
attest_example = attest-eq-is_attestable 0 20 refused disputed refl refl

abbrev new_text : CandidateUpdate
new_text = record {
  text = some (some "What is 5 + 5?");
  problem_type = none;
  graph_dsl = none;
  correct_answer = none;
}

edit_example :
    let (returned, slot) =
      edit_candidate new_text none 0 20 (some ready_session) (some ready_session) (λ t. t) in
    (returned ≡ ok tt)
    × Holds
        (Edited
          (has_semantic_change
            (candidate_content ready_session.candidate)
            (merge (base_candidate ready_session.variation) new_text).content)
          (merge (base_candidate ready_session.variation) new_text)
          ready_session)
        slot
edit_example = edit_lem new_text none 0 20 ready_session ready_session refl refl

abbrev working : Session
working = staged VariationStatus.generating none none

edit_drops_example :
    let landed =
      (save_result 0 pass passed true 12 (save_checkpoint 0 drawn 11 (some working)).0).0 in
    let (returned, slot) =
      edit_candidate
        (record {
          text = some (some "mine");
          problem_type = none;
          graph_dsl = none;
          correct_answer = none;
        })
        none
        0
        13
        (some working)
        landed
        (λ x. x) in
    (Holds (λ x. x.candidate ≡ some drawn) landed)
    × (returned ≡ ok tt)
    × Holds
        (λ x.
          (candidate_content x.candidate).problem_type ≡ none
          × (candidate_content x.candidate).correct_answer ≡ none)
        slot
edit_drops_example =
    edit_drops_candidate (some "mine") drawn passed 0 11 12 13 working refl refl refl
