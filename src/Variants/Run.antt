-- ===== src/Variants/Run.antt =====
-- Any interleaving of the repository's writes on one session: the requests of several users' tabs,
-- the executor's background task and the submit requests, in the order in which they land.
use learn_loop.Prelude.{ℕ, Option, String, List, [], ◌∷◌, Bool, false, none, some, ◌≡◌, refl}
use learn_loop.Assessment.{Validation}
use learn_loop.Variants.Drafts.{Candidate}
use learn_loop.Variants.Sessions.{Session, Slot}
use learn_loop.Variants.Repository.{
  Verdict, claim_generation, request_generation, request_revalidation, attest_validation,
  save_checkpoint, save_result, update_tags, reserve_for_submit, renew_reservation,
  release_reservation, mark_submitted, discard,
}
use learn_loop.Variants.Edit.{CandidateUpdate, write_edit}

-- One write, with all that its caller chooses. An edit may have read any document before.
pub data Op : Type 0 where
  claim : ℕ → ℕ → Op
  generate : ℕ → ℕ → Op
  revalidate : ℕ → ℕ → Op
  attest : ℕ → ℕ → Op
  checkpoint : ℕ → Candidate → ℕ → Op
  result : ℕ → Verdict → Validation → Bool → ℕ → Op
  edit : CandidateUpdate → Option (List String) → ℕ → ℕ → Session → Op
  tag : List String → ℕ → Op
  reserve : ℕ → String → ℕ → Op
  renew : String → ℕ → Op
  release : String → ℕ → Op
  submit : String → ℕ → Option String → ℕ → Op
  discard_session : ℕ → ℕ → Op

unfoldable pub act : Op → Slot → Slot × Bool
unfolding claim_generation request_generation request_revalidation attest_validation save_checkpoint
    save_result update_tags reserve_for_submit renew_reservation release_reservation mark_submitted
    discard write_edit
act (Op.claim r now) = claim_generation r now
act (Op.generate r now) = request_generation r now
act (Op.revalidate r now) = request_revalidation r now
act (Op.attest r now) = attest_validation r now
act (Op.checkpoint r c now) = save_checkpoint r c now
act (Op.result r verdict v present now) = save_result r verdict v present now
act (Op.edit u tags r now seen) = write_edit u tags r now seen
act (Op.tag tags now) = update_tags tags now
act (Op.reserve r token now) = reserve_for_submit r token now
act (Op.renew token now) = renew_reservation token now
act (Op.release token now) = release_reservation token now
act (Op.submit id r token now) = mark_submitted id r token now
act (Op.discard_session r now) = discard r now

unfoldable pub run : List Op → Slot → Slot
run [] slot = slot
run (op ∷ ops) slot = run ops (act op slot).0

-- The document that a slot holds has the property; a slot that lost its document has none.
abbrev pub Holds : (Session → Type 0) → Slot → Type 0
Holds P none = ⊥
Holds P (some s) = P s

pub act-none : (op : Op) → act op none ≡ (none, false)
unfolding act
act-none (Op.claim r now) = refl
act-none _ = refl

-- A property that every write keeps holds after any writes.
module _ (P : Session → Type 0)
    (keep : (op : Op) (s : Session) → P s → Holds P (act op (some s)).0) where
  pub run_induction : (ops : List Op) (slot : Slot) → Holds P slot → Holds P (run ops slot)
  unfolding run
  run_induction [] slot h = h
  run_induction (op ∷ ops) none h = absurd h
  run_induction (op ∷ ops) (some s) h = run_induction ops (act op (some s)).0 (keep op s h)
