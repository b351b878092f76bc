-- ===== src/Ingestion/Sound.antt =====
-- What holds of each item of a batch after any writes.
use learn_loop.Prelude.{
  ℕ, Option, none, some, List, Bool, true, not, ◌≡◌, ◌⊎◌, ◌&&◌, is_some, arith, String,
}
use learn_loop.States.{VariationStatus}
use learn_loop.Variants.Sessions.{Attestation}
use learn_loop.Ingestion.Documents.{Item, build_item, workflow_in}
use learn_loop.Ingestion.Images.{delete_item_of, no_boxes}
use learn_loop.Ingestion.Work.{is_running}
use learn_loop.States.{ItemState, is_variation_in_flight}
use learn_loop.Variants.Drafts.{Candidate}
use learn_loop.Ingestion.Documents.{Draft}
use learn_loop.Ingestion.Submits.{ItemResult, complete_item}
use learn_loop.Ingestion.Deletion.{undo_to}
use learn_loop.Ingestion.Variations.{recandidated, redrafted, is_editable}
use learn_loop.Ingestion.Work.{write_claim}
use learn_loop.Ingestion.Stable.{Stable}
use learn_loop.Ingestion.Keeps.{Keeps, update-Keeps, item-Keeps, append-All, map-All, new_items-All}
use learn_loop.Ingestion.History.{Write, apply}

pub record IsSound (i : Item) : Type 0 where
  -- an approval is one of the current content
  pub validated_current : {r : ℕ} → i.variation.validated_revision ≡ some r → r ≡ i.content_revision
  pub attested_current :
      {a : Attestation} → i.variation.attestation ≡ some a → a.revision ≡ i.content_revision
  -- exactly the ready variations have one, of one kind
  pub approved_ready :
      (is_some i.variation.validated_revision ≡ true) ⊎ (is_some i.variation.attestation ≡ true)
      → i.variation.status ≡ VariationStatus.ready
  pub ready_approved :
      i.variation.status ≡ VariationStatus.ready
      → (is_some i.variation.validated_revision ≡ true) ⊎ (is_some i.variation.attestation ≡ true)
  pub one_approval : is_some i.variation.validated_revision ≡ true → i.variation.attestation ≡ none
  -- a claim is held, with its lease, exactly while work runs
  pub claimed : is_some i.variation.claim_token ≡ is_running i
  pub leased : is_some i.variation.lease_until ≡ is_running i
  -- a variation was requested exactly where a source was confirmed
  pub confirmed : is_some i.variation.original ≡ not (workflow_in VariationStatus.not_requested i)
  -- an original submission holds no item whose source was confirmed
  pub reserved : is_some i.variation.submit_reservation ≡ true → i.variation.original ≡ none

pub build_item-IsSound :
    (item id : String) (order now : ℕ) (box : Option String)
    → IsSound (build_item item id order now box)
unfolding build_item
build_item-IsSound item id order now box = ground arith

pub apply-Keeps : (w : Write) → Keeps IsSound (apply w)
unfolding apply
apply-Keeps (Write.add_image id source order now) = record { keeps = λ b all. all }
apply-Keeps (Write.add_items ids id n order now) = update-Keeps IsSound _ _ (λ b all.
    append-All IsSound b.items _ all (
      new_items-All IsSound ids id order (no_boxes n) now
        (λ item id order. build_item-IsSound item id order now)))
apply-Keeps (Write.detect id now) = update-Keeps IsSound _ _ (λ b all. all)
apply-Keeps (Write.detected id subject found model raw now) =
    update-Keeps IsSound _ _ (λ b all. all)
apply-Keeps (Write.detect_failed id code message now) = update-Keeps IsSound _ _ (λ b all. all)
apply-Keeps (Write.boxes id subject found now) = update-Keeps IsSound _ _ (λ b all. all)
apply-Keeps (Write.delete_image id now) =
    update-Keeps IsSound _ _
      (λ b all. map-All IsSound (delete_item_of id now) b.items (λ i p. ground arith) all)
apply-Keeps (Write.cleaned now) = record { keeps = λ b all. all }
apply-Keeps (Write.claim id timeout now) = item-Keeps IsSound _ _ _ _ (λ i m p. ground arith)
apply-Keeps _ = item-Keeps IsSound _ _ _ _ (λ i m p. ground arith)

complete_item-IsSound :
    (results : List ItemResult) (token : String) (now : ℕ) (i : Item)
    → IsSound i
    → IsSound (complete_item results token now i)
unfolding complete_item
complete_item-IsSound results token now i p = ground arith

recandidated-IsSound :
    (merged : Candidate) (changed : Bool) (tags : Option (List String)) (now : ℕ) (same : Bool)
    (i : Item)
    → same && is_editable i ≡ true
    → IsSound i
    → IsSound (record (recandidated merged changed tags i) { updated_at = now })
recandidated-IsSound merged changed tags now same i e p = ground arith

redrafted-IsSound :
    (edit : Draft → Draft) (changed : Bool) (now : ℕ) (i : Item)
    → IsSound i
    → IsSound (record (redrafted edit changed i) { updated_at = now })
redrafted-IsSound edit changed now i p = ground arith

undo-Keeps :
    (item : Item) (previous : ItemState) (now : ℕ)
    → IsSound item
    → Keeps IsSound (undo_to item previous now)
unfolding undo_to
undo-Keeps item previous now s = item-Keeps IsSound _ _ _ _ (λ i m p. ground arith)

claim-Keeps :
    (id token : String) (timeout now : ℕ) (item : Item)
    → Keeps IsSound (write_claim id token timeout now item)
unfolding write_claim is_variation_in_flight
claim-Keeps id token timeout now item = item-Keeps IsSound _ _ _ _ (λ i m p. ground arith)

abbrev pub AnyToken : String → Type 0
AnyToken token = Unit

pub sound : Stable IsSound IsSound AnyToken
sound = record {
  weaken = λ i p. p;
  built = build_item-IsSound;
  written = apply-Keeps;
  completed = complete_item-IsSound;
  recandidate = recandidated-IsSound;
  redraft = redrafted-IsSound;
  undone = undo-Keeps;
  claimed = λ id token timeout now item c. claim-Keeps id token timeout now item;
}
