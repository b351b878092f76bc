-- ===== src/Ingestion/VariationWorker.antt =====
-- backend/app/infrastructure/worker/variation_worker.py: the choice of an item with pending work, and
-- one attempt on a claimed item, from the generation of a candidate to a verdict.
use learn_loop.Prelude.{
  is_truthy, ℕ, Option, none, some, String, List, [], ◌∷◌, Bool, true, false, ◌&&◌, ◌||◌,
  if◌then◌else◌, Result, ok, err,
}
use learn_loop.States.{VariationStatus}
use learn_loop.Assessment.{Validation}
use learn_loop.Variants.Drafts.{Content, Candidate, ContentError, problem_content_from_snapshot}
use learn_loop.Assessment.Reports.{ProblemContent}
use learn_loop.Variants.Repository.{Verdict, fail}
use learn_loop.Ingestion.Documents.{Item, Slot, workflow_in}
use learn_loop.Ingestion.Items.{is_free}
use learn_loop.Ingestion.Work.{
  claim_variation_work, renew_variation_lease, save_variation_candidate_checkpoint,
  save_variation_result,
}

-- `_is_variation_claimable`
unfoldable pub is_variation_claimable : Item → ℕ → Bool
is_variation_claimable i now =
    workflow_in VariationStatus.queued i
    || ((workflow_in VariationStatus.generating i || workflow_in VariationStatus.validating i)
        && is_free i.variation.lease_until now)

-- The items of one batch in `claim_next_variation_work`: the first that is claimable and whose claim
-- lands. `token n` is the fresh token of the n-th claim, and `seen` the batch that was found. Each
-- claim reads the batch again; no one writes between that read and the claim.
unfoldable pub claim_first : (ℕ → String) → ℕ → ℕ → ℕ → List Item → Slot → Option String × Slot
unfolding is_variation_claimable claim_variation_work
claim_first token n lease_timeout now [] slot = (none, slot)
claim_first token n lease_timeout now (i ∷ items) none = (none, none)
claim_first token n lease_timeout now (i ∷ items) (some b) =
    let (slot, claimed) = claim_variation_work i.item_id (token n) lease_timeout now b (some b) in
    let later = claim_first token (ℕ.suc n) lease_timeout now items slot in
    let next = claim_first token (ℕ.suc n) lease_timeout now items (some b) in
    if is_variation_claimable i now then if claimed then (some i.item_id, slot) else later else next

-- How a model call under `_run_with_lease_heartbeat` ends: with a value, with an exception and the
-- evidence that is stored for it (`_failed_validation_evidence`), or with the claim lost.
pub data Reply (A : Type 0) : Type 0 where
  returned : A → Reply A
  failed : Validation → Reply A
  claim_lost : Reply A

-- What an attempt gets from outside: the checks of the source and of the stored candidate's shape,
-- each with the report that it fails with (a candidate that is missing has no shape), and the replies of the generator and of the assessment.
pub record Replies : Type 0 where
  pub preflight : Option Validation
  pub generated : Reply Candidate
  pub malformed : Option Candidate → Option Validation
  pub assessed : Option Candidate → Reply (Verdict × Validation)

-- The claim that the attempt runs under.
pub record Claim : Type 0 where
  pub item_id : String
  pub token : String
  pub revision : ℕ

-- The writes of an attempt in their order. Before the n-th of them others write, the heartbeat of
-- the attempt included (`others`), and it happens at `at n`.
module _ (others : ℕ → Slot → Slot) (at : ℕ → ℕ) (lease_timeout : ℕ) (claim : Claim) where
  -- The new document, and whether a verdict was saved.
  abbrev pub land : ℕ → Verdict → Validation → Bool → Slot → Slot × Bool
  unfolding save_variation_result
  land n verdict validation present slot =
      save_variation_result claim.item_id claim.token claim.revision verdict validation present
        (at n) (others n slot)

  abbrev renew : ℕ → Slot → Slot × Bool
  unfolding renew_variation_lease
  renew n slot =
      renew_variation_lease claim.item_id claim.token lease_timeout (at n) (others n slot)

  unfoldable pub assess : Reply (Verdict × Validation) → Slot → Slot × Bool
  unfolding save_variation_result
  assess (returned (verdict, validation)) slot = land 3 verdict validation true slot
  assess (failed evidence) slot = land 3 fail evidence true slot
  assess claim_lost slot = (slot, false)

  -- After the check of the stored candidate; a renewal that fails ends the attempt.
  unfoldable pub after_check : Replies → Option Candidate → Option Validation → Slot → Slot × Bool
  unfolding save_variation_result renew_variation_lease assess
  after_check replies candidate (some report) slot = land 2 fail report true slot
  after_check replies candidate none slot =
      let (slot', renewed) = renew 2 slot in
      if renewed then assess (replies.assessed candidate) slot' else (slot', false)

  unfoldable pub validate : Replies → Option Candidate → Slot → Slot × Bool
  unfolding renew_variation_lease after_check
  validate replies candidate slot =
      let (slot', renewed) = renew 1 slot in
      if renewed
      then after_check replies candidate (replies.malformed candidate) slot'
      else (slot', false)

  unfoldable pub checkpointed : Replies → Reply Candidate → Slot → Slot × Bool
  unfolding save_variation_candidate_checkpoint save_variation_result validate
  checkpointed replies (returned candidate) slot =
      let (slot', saved) =
        save_variation_candidate_checkpoint claim.item_id claim.token claim.revision candidate
          (at 0) (others 0 slot) in
      if saved then validate replies (some candidate) slot' else (slot', false)
  checkpointed replies (failed evidence) slot = land 0 fail evidence false slot
  checkpointed replies claim_lost slot = (slot, false)

  unfoldable pub generate : Replies → Option Validation → Slot → Slot × Bool
  unfolding save_variation_result checkpointed
  generate replies (some report) slot = land 0 fail report false slot
  generate replies none slot = checkpointed replies replies.generated slot

  -- The attempt on an item that has a token and a source.
  unfoldable pub process_claimed : Replies → Item → Slot → Slot × Bool
  unfolding generate validate save_variation_result
  process_claimed replies item slot =
      if workflow_in VariationStatus.generating item
      then generate replies replies.preflight slot
      else if workflow_in VariationStatus.validating item
      then validate replies item.variation.candidate slot
      else (slot, false)

-- The content of the source, or what its building raises, outside of any `try`: then nothing is
-- written, and the item stays in flight.
abbrev pub process_source :
    (ℕ → Slot → Slot)
    → (ℕ → ℕ)
    → ℕ
    → Claim
    → Replies
    → Item
    → Result ContentError ProblemContent
    → Slot
    → Slot × Bool
unfolding process_claimed
process_source others at lease_timeout claim replies item (err raised) slot = (slot, false)
process_source others at lease_timeout claim replies item (ok source) slot =
    process_claimed others at lease_timeout claim replies item slot

-- The claim that an item carries, with its token.
abbrev pub claim_of : Item → String → Claim
claim_of item token = record {
  item_id = item.item_id;
  token = token;
  revision = item.content_revision;
}

abbrev pub process_with :
    (ℕ → Slot → Slot)
    → (ℕ → ℕ)
    → ℕ
    → Replies
    → Item
    → Option String
    → Option Content
    → Slot
    → Slot × Bool
unfolding process_claimed problem_content_from_snapshot
process_with others at lease_timeout replies item (some token) (some original) slot =
    if is_truthy token
    then process_source others at lease_timeout (claim_of item token) replies item
        (problem_content_from_snapshot original) slot
    else (slot, false)
process_with others at lease_timeout replies item _ _ slot = (slot, false)

-- `process_variation`: nothing without a token and a source.
unfoldable pub process_variation :
    (ℕ → Slot → Slot) → (ℕ → ℕ) → ℕ → Replies → Item → Slot → Slot × Bool
unfolding process_claimed problem_content_from_snapshot
process_variation others at lease_timeout replies item slot =
    process_with others at lease_timeout replies item item.variation.claim_token
      item.variation.original slot
