-- ===== src/Ingestion/Retrying.antt =====
-- `submit_items_and_complete_batch`: a loop of optimistic attempts.
use learn_loop.Prelude.{
  ℕ, suc, ◌<◌, none, some, String, List, ◌≡◌, ◌⊎◌, arith, inl, inr, ◌==◌, Bool-cases,
}
use learn_loop.Ingestion.Documents.{Batch, Slot}
use learn_loop.Ingestion.Images.{Attempt, done, raised, lost}
use learn_loop.Ingestion.Submits.{ItemResult, write_submit, submit_attempt}

-- `_MAX_OCC_ATTEMPTS`
abbrev pub max_occ_attempts : ℕ
max_occ_attempts = 50

abbrev pub unless_lost :
    Attempt (Unit {0}) × Slot → Attempt (Unit {0}) × Slot → Attempt (Unit {0}) × Slot
unless_lost (done a, slot) rest = (done a, slot)
unless_lost (raised, slot) rest = (raised, slot)
unless_lost (lost, slot) rest = rest

-- The attempts that are left, `others n` being what others write between the read and the write of
-- the attempt with `n` more to come. A batch that is gone makes the read raise.
unfoldable pub submit_loop :
    List ItemResult → String → ℕ → (ℕ → Slot → Slot) → ℕ → Slot → Attempt (Unit {0}) × Slot
unfolding submit_attempt
submit_loop results token now others ℕ.zero slot = (lost, slot)
submit_loop results token now others (suc n) none = (raised, none)
submit_loop results token now others (suc n) (some seen) =
    let tried = submit_attempt results token now seen (others n (some seen)) in
    unless_lost tried (submit_loop results token now others n tried.1)

unfoldable pub submit_items_and_complete_batch :
    List ItemResult → String → ℕ → (ℕ → Slot → Slot) → Slot → Attempt (Unit {0}) × Slot
unfolding submit_loop
submit_items_and_complete_batch results token now others =
    submit_loop results token now others max_occ_attempts

module _ (results : List ItemResult) (token : String) (now : ℕ) (others : ℕ → Slot → Slot)
    (stays : (n : ℕ) (b : Batch) → (c : Batch) × (others n (some b) ≡ some c)) where
  -- An attempt ends with its outcome, or it is lost and the batch is there.
  attempt_cases :
      (seen b : Batch)
      → ((submit_attempt results token now seen (some b)).0 ≡ done tt)
        ⊎ (submit_attempt results token now seen (some b) ≡ (lost, some b))
  unfolding submit_attempt write_submit
  attempt_cases seen b = ground arith

  fresh_lands : (b : Batch) → (submit_attempt results token now b (some b)).0 ≡ done tt
  unfolding submit_attempt write_submit
  fresh_lands b = ground arith

  loop_lem :
      (k n : ℕ) (b : Batch)
      → k < n
      → ((c : Batch) → others k (some c) ≡ some c)
      → (submit_loop results token now others n (some b)).0 ≡ done tt
  unfolding submit_loop
  loop_lem k ℕ.zero b l quiet = ground arith
  loop_lem k (suc n) b l quiet =
      let (c, e) = stays n b in
      elim (Bool-cases (k == n)) [
        | inl m ↦ ground (arith, m, quiet b, fresh_lands b)
        | inr m ↦ elim (attempt_cases b c) [
          | inl h ↦ ground (arith, e, h)
          | inr h ↦ ground (arith, e, h, loop_lem k n c (ground (arith, m, l)) quiet)
        ]
      ]

-- A submit request lands its outcomes within its fifty attempts: if the batch is there and others
-- leave it as it is between the read and the write of at least one of the attempts, whatever they
-- do to it, short of removing it, during all the others, then the request does not give up.
pub submit_lands :
    (results : List ItemResult) (token : String) (now : ℕ) (others : ℕ → Slot → Slot) (b : Batch)
    (k : ℕ)
    → ((n : ℕ) (c : Batch) → (d : Batch) × (others n (some c) ≡ some d))
    → k < max_occ_attempts
    → ((c : Batch) → others k (some c) ≡ some c)
    → (submit_items_and_complete_batch results token now others (some b)).0 ≡ done tt
unfolding submit_items_and_complete_batch
submit_lands results token now others b k stays l quiet =
    loop_lem results token now others stays k max_occ_attempts b l quiet
