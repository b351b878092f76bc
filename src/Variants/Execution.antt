-- ===== src/Variants/Execution.antt =====
-- A run of a session that no one overrides lands a verdict.
use learn_loop.Prelude.{
  ℕ, Option, none, some, Bool, true, false, ◌&&◌, ◌||◌, ◌≡◌, ◌==◌, arith, Result, ok, err,
}
use learn_loop.States.{VariationStatus}
use learn_loop.Assessment.{Validation}
use learn_loop.Variants.Drafts.{Candidate, ContentError, problem_content_from_snapshot}
use learn_loop.Assessment.Reports.{ProblemContent}
use learn_loop.Variants.Sessions.{Session, Slot, has_status, is_live}
use learn_loop.Variants.Repository.{Verdict, fail, claim_generation, save_checkpoint, save_result}
use learn_loop.Variants.Executor.{
  Replies, land, assess, after_check, checkpoint, generate, execute, execute_source,
  is_ingestion_mode, claimed, run_session_generation,
}

abbrev is_content : Result ContentError ProblemContent → Bool
is_content (err raised) = false
is_content (ok source) = true

-- The mode is one of `IngestionMode` and the source has a text, a type and an answer.
abbrev pub has_source : Session → Bool
has_source s = is_ingestion_mode s.mode && is_content (problem_content_from_snapshot s.original)

-- The session is live, with a source, at the revision and in the status.
abbrev pub is_at : ℕ → VariationStatus → Slot → Bool
is_at r status none = false
is_at r status (some s) =
    s.content_revision == r && is_live s && has_source s && has_status status s

abbrev pub is_running_at : ℕ → Slot → Bool
is_running_at r slot =
    is_at r VariationStatus.generating slot || is_at r VariationStatus.validating slot

save_result-lands :
    (r now : ℕ) (verdict : Verdict) (v : Validation) (present : Bool) (slot : Slot)
    → is_running_at r slot ≡ true
    → (save_result r verdict v present now slot).1 ≡ true
unfolding save_result
save_result-lands r now verdict v present none h = ground arith
save_result-lands r now verdict v present (some s) h = ground (arith, h)

save_checkpoint-lands :
    (r now : ℕ) (c : Candidate) (slot : Slot)
    → is_at r VariationStatus.generating slot ≡ true
    → ((save_checkpoint r c now slot).1 ≡ true)
      × (is_at r VariationStatus.validating (save_checkpoint r c now slot).0 ≡ true)
unfolding save_checkpoint
save_checkpoint-lands r now c none h = ground arith
save_checkpoint-lands r now c (some s) h = ground (arith, h)

claim-lands :
    (r now : ℕ) (slot : Slot)
    → is_at r VariationStatus.queued slot ≡ true
    → ((claim_generation r now slot).1 ≡ true)
      × (is_at r VariationStatus.generating (claim_generation r now slot).0 ≡ true)
unfolding claim_generation
claim-lands r now none h = ground arith
claim-lands r now (some s) h = ground (arith, h)

sourced :
    (r : ℕ) (status : VariationStatus) (s : Session)
    → is_at r status (some s) ≡ true
    → (is_ingestion_mode s.mode ≡ true)
      × (is_content (problem_content_from_snapshot s.original) ≡ true)
sourced r status s h = ground (arith, h)

weaken-generating :
    (r : ℕ) (slot : Slot)
    → is_at r VariationStatus.generating slot ≡ true
    → is_running_at r slot ≡ true
weaken-generating r slot h = ground (arith, h)

weaken-validating :
    (r : ℕ) (slot : Slot)
    → is_at r VariationStatus.validating slot ≡ true
    → is_running_at r slot ≡ true
weaken-validating r slot h = ground (arith, h)

module _ (others : ℕ → Slot → Slot) (at : ℕ → ℕ) (replies : Replies)
    (keeps : (n r : ℕ) (status : VariationStatus) (slot : Slot)
      → is_at r status slot ≡ true
      → is_at r status (others n slot) ≡ true) where
  lands :
      (n r : ℕ) (verdict : Verdict) (v : Validation) (present : Bool) (slot : Slot)
      → is_running_at r slot ≡ true
      → (land others at replies n r verdict v present slot).1 ≡ true
  unfolding save_result
  lands n r verdict v present slot h =
      save_result-lands r (at n) verdict v present (others n slot) (
        ground (
          arith,
          h,
          keeps n r VariationStatus.generating slot,
          keeps n r VariationStatus.validating slot,
        ))

  assess-lands :
      (r : ℕ) (reply : Result Validation (Verdict × Validation)) (slot : Slot)
      → is_running_at r slot ≡ true
      → (assess others at replies r reply slot).1 ≡ true
  unfolding assess
  assess-lands r (err e) slot h = lands 2 r fail e true slot h
  assess-lands r (ok (verdict, v)) slot h = lands 2 r verdict v true slot h

  after_check-lands :
      (r : ℕ) (c : Candidate) (report : Option Validation) (slot : Slot)
      → is_running_at r slot ≡ true
      → (after_check others at replies r c report slot).1 ≡ true
  unfolding after_check
  after_check-lands r c (some report) slot h = lands 2 r fail report true slot h
  after_check-lands r c none slot h = assess-lands r (replies.assessed c) slot h

  checkpoint-lands :
      (r : ℕ) (reply : Result Validation Candidate) (slot : Slot)
      → is_at r VariationStatus.generating slot ≡ true
      → (checkpoint others at replies r reply slot).1 ≡ true
  unfolding checkpoint
  checkpoint-lands r (err e) slot h = lands 1 r fail e false slot (weaken-generating r slot h)
  checkpoint-lands r (ok c) slot h =
      let (saved, held) =
        save_checkpoint-lands r (at 1) c (others 1 slot)
          (keeps 1 r VariationStatus.generating slot h) in
      rw saved (after_check-lands r c (replies.malformed c) _ (weaken-validating r _ held))

  execute-lands :
      (r : ℕ) (candidate : Option Candidate) (slot : Slot)
      → is_at r VariationStatus.generating slot ≡ true
      → (execute others at replies r candidate slot).1 ≡ true
  unfolding execute generate
  execute-lands r (some c) slot h =
      after_check-lands r c (replies.malformed c) slot (weaken-generating r slot h)
  execute-lands r none slot h = ground (
    arith,
    checkpoint-lands r replies.generated slot h,
    λ (report : Validation). lands 1 r fail report false slot (weaken-generating r slot h),
  )

  source-lands :
      (r : ℕ) (content : Result ContentError ProblemContent) (s : Session)
      → is_content content ≡ true
      → is_at r VariationStatus.generating (some s) ≡ true
      → (execute_source others at replies r content s).1 ≡ true
  unfolding execute_source
  source-lands r (err e) s c h = ground arith
  source-lands r (ok source) s c h = execute-lands r s.candidate (some s) h

  claimed-lands :
      (r : ℕ) (result : Slot × Bool)
      → result.1 ≡ true
      → is_at r VariationStatus.generating result.0 ≡ true
      → (claimed others at replies r result).1 ≡ true
  unfolding claimed
  claimed-lands r (none, matched) m h = ground (arith, h)
  claimed-lands r (some s, matched) m h =
      rw (m, (sourced r VariationStatus.generating s h).0)
        (source-lands r (problem_content_from_snapshot s.original) s
          (sourced r VariationStatus.generating s h).1 h)

  -- A run of a live session that is queued, with a known mode and a source that has a text, a type
  -- and an answer, saves a verdict, whatever the checks say and the models return or raise, if others
  -- leave a session with these, at a revision and in a status, so between the writes of the run.
  pub run_session_generation-lands :
      (s : Session)
      → is_live s ≡ true
      → has_source s ≡ true
      → has_status VariationStatus.queued s ≡ true
      → (run_session_generation others at replies (some s)).1 ≡ true
  unfolding run_session_generation
  run_session_generation-lands s l c q =
      let (saved, held) =
        claim-lands s.content_revision (at 0) (others 0 (some s))
          (keeps 0 s.content_revision VariationStatus.queued (some s) (ground (arith, l, c, q))) in
      ground (
        arith,
        l,
        q,
        claimed-lands s.content_revision
            (claim_generation s.content_revision (at 0) (others 0 (some s))) saved held,
      )
