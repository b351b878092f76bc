-- ===== src/Ingestion/Landing.antt =====
-- An attempt of a variation worker that keeps its claim lands a verdict.
use learn_loop.Prelude.{
  is_truthy, ℕ, suc, ◌+◌, ◌<◌, Option, none, some, String, List, [], ◌∷◌, Bool, true, false, ◌&&◌,
  ◌≡◌, ◌⊎◌, ok, ◌==◌, refl, arith, any, update_first, inl, inr,
}
use learn_loop.States.{VariationStatus}
use learn_loop.Assessment.{Validation}
use learn_loop.Variants.Drafts.{Content, Candidate, problem_content_from_snapshot}
use learn_loop.Assessment.Reports.{ProblemContent}
use learn_loop.Variants.Repository.{Verdict, fail}
use learn_loop.Ingestion.Documents.{Item, Slot, workflow_in}
use learn_loop.Ingestion.Submits.{is_live_batch}
use learn_loop.Ingestion.Writes.{any-weaken}
use learn_loop.Ingestion.Work.{
  owns, is_running, renew_variation_lease, save_variation_candidate_checkpoint,
  save_variation_result,
}
use learn_loop.Ingestion.VariationWorker.{
  process_variation, claim_of, Reply, returned, failed, claim_lost, Replies, Claim, land, assess,
  after_check, validate, checkpointed, generate, process_claimed,
}

-- Where one element has a property, so has one after a change that keeps it, or that gives it to
-- what matches.
any-kept :
    (q matches : Item → Bool) (change : Item → Item) (xs : List Item)
    → ((i : Item) → q i ≡ true → q (change i) ≡ true)
    → any q xs ≡ true
    → any q (update_first matches change xs) ≡ true
any-kept q matches change [] keep h = h
any-kept q matches change (x ∷ xs) keep h =
    ground (arith, h, keep x, λ (t : any q xs ≡ true). any-kept q matches change xs keep t)

any-given :
    (q matches : Item → Bool) (change : Item → Item) (xs : List Item)
    → ((i : Item) → matches i ≡ true → q (change i) ≡ true)
    → any matches xs ≡ true
    → any q (update_first matches change xs) ≡ true
any-given q matches change [] give h = ground arith
any-given q matches change (x ∷ xs) give h =
    ground (arith, h, give x, λ (t : any matches xs ≡ true). any-given q matches change xs give t)

-- An item of a live batch is held under the claim at a time, in a status.
abbrev pub held_in : Claim → VariationStatus → ℕ → Item → Bool
held_in claim status now i =
    owns claim.item_id claim.token now i
    && workflow_in status i
    && i.content_revision == claim.revision

abbrev pub is_held : Claim → VariationStatus → ℕ → Slot → Bool
is_held claim status now none = false
is_held claim status now (some b) = is_live_batch now b && any (held_in claim status now) b.items

-- The two statuses of running work.
abbrev pub Running : VariationStatus → Type 0
Running status = (status ≡ VariationStatus.generating) ⊎ (status ≡ VariationStatus.validating)

result-lands :
    (claim : Claim) (status : VariationStatus) (now : ℕ) (slot : Slot) (verdict : Verdict)
    (v : Validation) (present : Bool)
    → Running status
    → is_held claim status now slot ≡ true
    → (save_variation_result claim.item_id claim.token claim.revision verdict v present now slot).1
      ≡ true
unfolding save_variation_result
result-lands claim status now none verdict v present r h = ground arith
result-lands claim status now (some b) verdict v present r h = ground (
  arith,
  h,
  any-weaken (held_in claim status now)
      (λ i.
        owns claim.item_id claim.token now i
        && is_running i
        && i.content_revision == claim.revision)
      b.items (λ i e. ground arith),
)

renewal-lands :
    (claim : Claim) (lease_timeout now : ℕ) (slot : Slot)
    → 0 < lease_timeout
    → is_held claim VariationStatus.validating now slot ≡ true
    → let renewed = renew_variation_lease claim.item_id claim.token lease_timeout now slot in
      (renewed.1 ≡ true) × (is_held claim VariationStatus.validating now renewed.0 ≡ true)
unfolding renew_variation_lease
renewal-lands claim lease_timeout now none l h = ground arith
renewal-lands claim lease_timeout now (some b) l h = ground (
  arith,
  h,
  any-weaken (held_in claim VariationStatus.validating now)
      (λ i. owns claim.item_id claim.token now i && is_running i) b.items (λ i e. ground arith),
  any-kept (held_in claim VariationStatus.validating now)
      (λ i. owns claim.item_id claim.token now i && is_running i)
      (λ i. record i {
        variation = record (i.variation) { lease_until = some (now + lease_timeout) };
        updated_at = now;
      })
      b.items (λ i e. ground arith),
)

checkpoint-lands :
    (claim : Claim) (candidate : Candidate) (now : ℕ) (slot : Slot)
    → is_held claim VariationStatus.generating now slot ≡ true
    → let saved =
        save_variation_candidate_checkpoint claim.item_id claim.token claim.revision candidate now
          slot in
      (saved.1 ≡ true) × (is_held claim VariationStatus.validating now saved.0 ≡ true)
unfolding save_variation_candidate_checkpoint
checkpoint-lands claim candidate now none h = ground arith
checkpoint-lands claim candidate now (some b) h = ground (
  arith,
  h,
  any-given (held_in claim VariationStatus.validating now)
      (held_in claim VariationStatus.generating now)
      (λ i. record i {
        variation = record (i.variation) {
          candidate = some candidate;
          status = VariationStatus.validating;
        };
        updated_at = now;
      })
      b.items (λ i e. ground arith),
)

-- A reply other than the loss of the claim.
abbrev pub Answered : {A : Type 0} → Reply A → Type 0
Answered claim_lost = ⊥
Answered _ = Unit

module _ (others : ℕ → Slot → Slot) (at : ℕ → ℕ) (lease_timeout : ℕ) (claim : Claim)
    (replies : Replies) (lasting : 0 < lease_timeout)
    (keeps : (n : ℕ) (slot : Slot)
      → is_held claim VariationStatus.validating (at n) slot ≡ true
      → is_held claim VariationStatus.validating (at (suc n)) (others (suc n) slot) ≡ true)
    (assessed : (c : Option Candidate) → Answered (replies.assessed c)) where
  lands :
      (n : ℕ) (status : VariationStatus) (verdict : Verdict) (v : Validation) (present : Bool)
      (slot : Slot)
      → Running status
      → is_held claim status (at n) (others n slot) ≡ true
      → (land others at lease_timeout claim n verdict v present slot).1 ≡ true
  unfolding save_variation_result
  lands n status verdict v present slot r h =
      result-lands claim status (at n) (others n slot) verdict v present r h

  assess-lands :
      (reply : Reply (Verdict × Validation)) (slot : Slot)
      → Answered reply
      → is_held claim VariationStatus.validating (at 2) slot ≡ true
      → (assess others at lease_timeout claim reply slot).1 ≡ true
  unfolding assess
  assess-lands (returned (verdict, v)) slot a h =
      lands 3 VariationStatus.validating verdict v true slot (inr refl) (keeps 2 slot h)
  assess-lands (failed v) slot a h =
      lands 3 VariationStatus.validating fail v true slot (inr refl) (keeps 2 slot h)
  assess-lands claim_lost slot a h = absurd a

  after_check-lands :
      (c : Option Candidate) (report : Option Validation) (slot : Slot)
      → is_held claim VariationStatus.validating (at 1) slot ≡ true
      → (after_check others at lease_timeout claim replies c report slot).1 ≡ true
  unfolding after_check
  after_check-lands c (some report) slot h =
      lands 2 VariationStatus.validating fail report true slot (inr refl) (keeps 1 slot h)
  after_check-lands c none slot h =
      let (saved, held) =
        renewal-lands claim lease_timeout (at 2) (others 2 slot) lasting (keeps 1 slot h) in
      rw saved (assess-lands (replies.assessed c) _ (assessed c) held)

  validate-lands :
      (c : Option Candidate) (slot : Slot)
      → is_held claim VariationStatus.validating (at 1) (others 1 slot) ≡ true
      → (validate others at lease_timeout claim replies c slot).1 ≡ true
  unfolding validate
  validate-lands c slot h =
      let (saved, held) = renewal-lands claim lease_timeout (at 1) (others 1 slot) lasting h in
      rw saved (after_check-lands c (replies.malformed c) _ held)

  checkpointed-lands :
      (reply : Reply Candidate) (slot : Slot)
      → Answered reply
      → is_held claim VariationStatus.generating (at 0) (others 0 slot) ≡ true
      → (checkpointed others at lease_timeout claim replies reply slot).1 ≡ true
  unfolding checkpointed
  checkpointed-lands (returned c) slot a h =
      let (saved, held) = checkpoint-lands claim c (at 0) (others 0 slot) h in
      rw saved (validate-lands (some c) _ (keeps 0 _ held))
  checkpointed-lands (failed v) slot a h =
      lands 0 VariationStatus.generating fail v false slot (inl refl) h
  checkpointed-lands claim_lost slot a h = absurd a

  generate-lands :
      (report : Option Validation) (slot : Slot)
      → Answered replies.generated
      → is_held claim VariationStatus.generating (at 0) (others 0 slot) ≡ true
      → (generate others at lease_timeout claim replies report slot).1 ≡ true
  unfolding generate
  generate-lands (some report) slot a h =
      lands 0 VariationStatus.generating fail report false slot (inl refl) h
  generate-lands none slot a h = checkpointed-lands replies.generated slot a h

  process_claimed-lands :
      (item : Item) (slot : Slot)
      → Answered replies.generated
      → ((workflow_in VariationStatus.generating item ≡ true)
          × (is_held claim VariationStatus.generating (at 0) (others 0 slot) ≡ true))
        ⊎ ((workflow_in VariationStatus.validating item ≡ true)
            × (is_held claim VariationStatus.validating (at 1) (others 1 slot) ≡ true))
      → (process_claimed others at lease_timeout claim replies item slot).1 ≡ true
  unfolding process_claimed
  process_claimed-lands item slot a (inl h) =
      ground (arith, h.0, generate-lands replies.preflight slot a h.1)
  process_claimed-lands item slot a (inr h) =
      ground (arith, h.0, validate-lands item.variation.candidate slot h.1)

-- An attempt on a claimed item saves a verdict, and does not leave the item in flight: if the item
-- has a token and a source with a text, a type and an answer, the lease is not empty, the claim is held when the attempt first writes
-- (in the status that was claimed), others and its own heartbeat leave the claim held between its
-- writes, and no model call reports the claim lost, then whatever the checks say and the models
-- reply or raise, one of the writes of a verdict takes effect.
pub process_variation-lands :
    (others : ℕ → Slot → Slot) (at : ℕ → ℕ) (lease_timeout : ℕ) (replies : Replies) (item : Item)
    (token : String) (original : Content) (source : ProblemContent) (slot : Slot)
    → item.variation.claim_token ≡ some token
    → is_truthy token ≡ true
    → item.variation.original ≡ some original
    → problem_content_from_snapshot original ≡ ok source
    → 0 < lease_timeout
    → ((n : ℕ) (s : Slot)
        → is_held (claim_of item token) VariationStatus.validating (at n) s ≡ true
        → is_held (claim_of item token) VariationStatus.validating (at (suc n)) (others (suc n) s)
          ≡ true)
    → Answered replies.generated
    → ((c : Option Candidate) → Answered (replies.assessed c))
    → ((workflow_in VariationStatus.generating item ≡ true)
        × (is_held (claim_of item token) VariationStatus.generating (at 0) (others 0 slot) ≡ true))
      ⊎ ((workflow_in VariationStatus.validating item ≡ true)
          × (is_held (claim_of item token) VariationStatus.validating (at 1) (others 1 slot)
              ≡ true))
    → (process_variation others at lease_timeout replies item slot).1 ≡ true
unfolding process_variation
process_variation-lands others at lease_timeout replies item token original source slot t b o
      content lasting keeps generated assessed held =
    rw t (
      rw o (
        rw (b, content)
          (process_claimed-lands others at lease_timeout (claim_of item token) replies lasting keeps
            assessed item slot generated held)))
