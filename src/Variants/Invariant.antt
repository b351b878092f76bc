-- ===== src/Variants/Invariant.antt =====
-- What holds of a session after any writes: an approval always covers the current revision.
use learn_loop.Prelude.{ℕ, ◌+◌, ◌≤◌, ◌≡◌, ◌⊎◌, none, some, String, List, true, is_some, arith}
use learn_loop.States.{VariationStatus}
use learn_loop.Variants.Drafts.{Content}
use learn_loop.Variants.Sessions.{Session, Attestation}
use learn_loop.Variants.Repository.{build_session}
use learn_loop.Variants.Run.{Op, act, run, Holds, run_induction}

pub record IsSound (s : Session) : Type 0 where
  -- a verdict or an attestation that is kept is one for the current content
  pub validated_current : {r : ℕ} → s.validated_revision ≡ some r → r ≡ s.content_revision
  pub attested_current :
      {a : Attestation} → s.attestation ≡ some a → a.revision ≡ s.content_revision
  -- only a ready session keeps an approval, and it keeps exactly one of the two kinds
  pub approved_ready :
      (is_some s.validated_revision ≡ true) ⊎ (is_some s.attestation ≡ true)
      → s.status ≡ VariationStatus.ready
  pub ready_approved :
      s.status ≡ VariationStatus.ready
      → (is_some s.validated_revision ≡ true) ⊎ (is_some s.attestation ≡ true)
  pub one_approval : is_some s.validated_revision ≡ true → s.attestation ≡ none
  -- each generation after the first has a revision of its own
  pub generations_counted : s.generation_count ≤ s.content_revision + 1
  pub generated : 1 ≤ s.generation_count
  -- a session ends at most one way
  pub one_end : is_some s.submit ≡ true → s.discarded_at ≡ none

act-IsSound : (op : Op) (s : Session) → IsSound s → Holds IsSound (act op (some s)).0
unfolding act
act-IsSound op s h = ground arith

-- After any writes in any order, a session that was created as the code creates it still has its
-- document, and the document is sound: an approval covers the current revision, exactly the ready
-- sessions are approved and by one kind, each generation after the first has a revision of its own,
-- and no session is both submitted and discarded.
pub run-IsSound :
    (problem_id : String) (user_id : ℕ) (mode : String) (original : Content) (tags : List String)
    (now : ℕ) (ops : List Op)
    → Holds IsSound (run ops (some (build_session problem_id user_id mode original tags now)))
unfolding build_session
run-IsSound problem_id user_id mode original tags now ops =
    run_induction IsSound act-IsSound ops
      (some (build_session problem_id user_id mode original tags now)) (ground arith)
