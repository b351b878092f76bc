-- ===== src/Variants/Executor.antt =====
-- backend/app/infrastructure/problem_variants/executor.py: one run of a queued session, from its claim
-- to a verdict.
use learn_loop.Prelude.{
  ℕ, Option, none, some, String, str_eq, ◌||◌, Bool, true, false, ◌&&◌, not, is_some, if◌then◌else◌,
  Result, ok, err,
}
use learn_loop.States.{VariationStatus}
use learn_loop.Assessment.{Validation}
use learn_loop.Assessment.Reports.{ProblemContent}
use learn_loop.Variants.Drafts.{Candidate, ContentError, problem_content_from_snapshot}
use learn_loop.Variants.Sessions.{Session, Slot, has_status}
use learn_loop.Variants.Repository.{Verdict, fail, claim_generation, save_checkpoint, save_result}

-- What a run gets from outside: the checks of the source and of the candidate's shape, each with the
-- report that it fails with, and what the generator and the assessment return, or the evidence of
-- what they raise (`_failed_validation_evidence`).
pub record Replies : Type 0 where
  pub preflight : Option Validation
  pub generated : Result Validation Candidate
  pub malformed : Candidate → Option Validation
  pub assessed : Candidate → Result Validation (Verdict × Validation)

-- The values of `IngestionMode`, on which `canonical_variation_mode` does not raise.
unfoldable pub is_ingestion_mode : String → Bool
is_ingestion_mode mode =
    str_eq mode "original"
    || str_eq mode "data-only"
    || str_eq mode "transfer-variant"
    || str_eq mode "data-and-wording"

-- The writes of a run: before the n-th of them, which happens at `at n`, others write.
module _ (others : ℕ → Slot → Slot) (at : ℕ → ℕ) (replies : Replies) where
  abbrev pub land : ℕ → ℕ → Verdict → Validation → Bool → Slot → Slot × Bool
  unfolding save_result
  land n r verdict v present slot = save_result r verdict v present (at n) (others n slot)

  unfoldable pub assess : ℕ → Result Validation (Verdict × Validation) → Slot → Slot × Bool
  unfolding save_result
  assess r (err evidence) slot = land 2 r fail evidence true slot
  assess r (ok (verdict, v)) slot = land 2 r verdict v true slot

  unfoldable pub after_check : ℕ → Candidate → Option Validation → Slot → Slot × Bool
  unfolding save_result assess
  after_check r candidate (some report) slot = land 2 r fail report true slot
  after_check r candidate none slot = assess r (replies.assessed candidate) slot

  unfoldable pub checkpoint : ℕ → Result Validation Candidate → Slot → Slot × Bool
  unfolding save_checkpoint save_result after_check
  checkpoint r (err evidence) slot = land 1 r fail evidence false slot
  checkpoint r (ok candidate) slot =
      let (slot', saved) = save_checkpoint r candidate (at 1) (others 1 slot) in
      if saved then after_check r candidate (replies.malformed candidate) slot' else (slot', false)

  unfoldable pub generate : ℕ → Option Validation → Slot → Slot × Bool
  unfolding save_result checkpoint
  generate r (some report) slot = land 1 r fail report false slot
  generate r none slot = checkpoint r replies.generated slot

  -- A stored candidate is validated, and only where there is none is one generated.
  unfoldable pub execute : ℕ → Option Candidate → Slot → Slot × Bool
  unfolding generate after_check
  execute r none slot = generate r replies.preflight slot
  execute r (some candidate) slot = after_check r candidate (replies.malformed candidate) slot

  -- With the content of the source, or what its building raises.
  unfoldable pub execute_source : ℕ → Result ContentError ProblemContent → Session → Slot × Bool
  unfolding execute
  execute_source r (err raised) s = (some s, false)
  execute_source r (ok source) s = execute r s.candidate (some s)

  -- The run goes on from the document that the claim returns. What `canonical_variation_mode` and
  -- `problem_content_from_snapshot` raise is only logged by the task. A snapshot has its five keys, so
  -- it is never empty.
  unfoldable pub claimed : ℕ → Slot × Bool → Slot × Bool
  unfolding execute_source problem_content_from_snapshot is_ingestion_mode
  claimed r (none, matched) = (none, false)
  claimed r (some s, matched) =
      if matched
      then if is_ingestion_mode s.mode
        then execute_source r (problem_content_from_snapshot s.original) s
        else (some s, false)
      else (some s, false)

  -- `_run_session_generation`: the new document, and whether a verdict was saved.
  unfoldable pub run_session_generation : Slot → Slot × Bool
  unfolding claim_generation claimed
  run_session_generation none = (none, false)
  run_session_generation (some s) =
      if not (is_some s.discarded_at) && has_status VariationStatus.queued s
      then claimed s.content_revision
          (claim_generation s.content_revision (at 0) (others 0 (some s)))
      else (some s, false)
