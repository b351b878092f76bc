-- ===== src/Ingestion/Fencing.antt =====
-- The fencing of variation workers by the token of their claim.
use learn_loop.Prelude.{
  ℕ, Option, none, some, List, [], ◌∷◌, Bool, false, ◌≡◌, ◌&&◌, refl, arith, All, String, str_eq,
  any, ◌==◌,
}
use learn_loop.Assessment.{Validation}
use learn_loop.States.{VariationStatus, ItemState, is_variation_in_flight}
use learn_loop.Variants.Drafts.{Candidate}
use learn_loop.Variants.Repository.{Verdict}
use learn_loop.Ingestion.Documents.{Batch, Item, Slot, build_item, workflow_in}
use learn_loop.Ingestion.Images.{no_boxes, delete_item_of}
use learn_loop.Ingestion.Deletion.{undo_to}
use learn_loop.Ingestion.Submits.{ItemResult, complete_item}
use learn_loop.Ingestion.Work.{
  write_claim, is_running, has_token, owns, renew_variation_lease,
  save_variation_candidate_checkpoint, save_variation_result,
}
use learn_loop.Ingestion.Keeps.{
  ItemsHold, Keeps, update-Keeps, item-Keeps, append-All, map-All, new_items-All,
}
use learn_loop.Ingestion.History.{Write, apply, Step, run, version}
use learn_loop.Ingestion.Stable.{Stable, Stands, run-Stands, Claims}

-- No one holds a claim with the token on the item.
abbrev pub Gone : String → Item → Type 0
Gone token i = has_token token i.variation.claim_token ≡ false

-- The token of a new claim is another: every claim draws a fresh `uuid4`.
abbrev pub Other : String → String → Type 0
Other token t = str_eq t token ≡ false

abbrev Nothing : Item → Type 0
Nothing i = Unit

module _ (token : String) where
  built-Gone :
      (item id : String) (order now : ℕ) (box : Option String)
      → Gone token (build_item item id order now box)
  unfolding build_item
  built-Gone item id order now box = refl

  apply-Keeps : (w : Write) → Keeps (Gone token) (apply w)
  unfolding apply
  apply-Keeps (Write.add_image id source order now) = record { keeps = λ b all. all }
  apply-Keeps (Write.add_items ids id n order now) = update-Keeps (Gone token) _ _ (λ b all.
      append-All (Gone token) b.items _ all (
        new_items-All (Gone token) ids id order (no_boxes n) now
          (λ item id order. built-Gone item id order now)))
  apply-Keeps (Write.detect id now) = update-Keeps (Gone token) _ _ (λ b all. all)
  apply-Keeps (Write.detected id subject found model raw now) =
      update-Keeps (Gone token) _ _ (λ b all. all)
  apply-Keeps (Write.detect_failed id code message now) =
      update-Keeps (Gone token) _ _ (λ b all. all)
  apply-Keeps (Write.boxes id subject found now) = update-Keeps (Gone token) _ _ (λ b all. all)
  apply-Keeps (Write.delete_image id now) =
      update-Keeps (Gone token) _ _
        (λ b all. map-All (Gone token) (delete_item_of id now) b.items (λ i p. ground arith) all)
  apply-Keeps (Write.cleaned now) = record { keeps = λ b all. all }
  apply-Keeps _ = item-Keeps (Gone token) _ _ _ _ (λ i m p. ground arith)

  completed-Gone :
      (results : List ItemResult) (t : String) (now : ℕ) (i : Item)
      → Gone token i
      → Gone token (complete_item results t now i)
  unfolding complete_item
  completed-Gone results t now i p = ground arith

  undo-Keeps :
      (item : Item) (previous : ItemState) (now : ℕ)
      → Keeps (Gone token) (undo_to item previous now)
  unfolding undo_to
  undo-Keeps item previous now = item-Keeps (Gone token) _ _ _ _ (λ i m p. ground arith)

  claim-Keeps :
      (id t : String) (timeout now : ℕ) (item : Item)
      → Other token t
      → Keeps (Gone token) (write_claim id t timeout now item)
  unfolding write_claim is_variation_in_flight
  claim-Keeps id t timeout now item other = item-Keeps (Gone token) _ _ _ _ (λ i m p. ground arith)

  pub gone : Stable (Gone token) Nothing (Other token)
  gone = record {
    weaken = λ i p. tt;
    built = built-Gone;
    written = apply-Keeps;
    completed = completed-Gone;
    recandidate = λ merged changed tags now same i m p. p;
    redraft = λ edit changed now i p. ground arith;
    undone = λ item previous now q. undo-Keeps item previous now;
    claimed = claim-Keeps;
  }

  none_owns :
      (id : String) (now : ℕ) (rest : Item → Bool) (xs : List Item)
      → All (Gone token) xs
      → any (λ i. owns id token now i && rest i) xs ≡ false
  none_owns id now rest [] h = refl
  none_owns id now rest (i ∷ xs) h = ground (arith, h.0, none_owns id now rest xs h.1)

  -- The three writes of a worker that holds the token.
  abbrev pub IsRefused : String → ℕ → Slot → Type 0
  IsRefused id now slot =
      ((timeout : ℕ) → renew_variation_lease id token timeout now slot ≡ (slot, false))
      × ((r : ℕ) (c : Candidate)
          → save_variation_candidate_checkpoint id token r c now slot ≡ (slot, false))
      × ((r : ℕ) (verdict : Verdict) (v : Validation) (present : Bool)
          → save_variation_result id token r verdict v present now slot ≡ (slot, false))

  Gone-IsRefused :
      (id : String) (now : ℕ) (slot : Slot) → ItemsHold (Gone token) slot → IsRefused id now slot
  unfolding renew_variation_lease save_variation_candidate_checkpoint save_variation_result
  Gone-IsRefused id now none h = (λ _. refl, λ _ _. refl, λ _ _ _ _. refl)
  Gone-IsRefused id now (some b) h = (
    λ timeout. ground (arith, none_owns id now is_running b.items h),
    λ r c. ground (
      arith,
      none_owns id now (λ i. workflow_in VariationStatus.generating i && i.content_revision == r)
          b.items h,
    ),
    λ r verdict v present.
        ground (arith, none_owns id now (λ i. is_running i && i.content_revision == r) b.items h),
  )

  newest_lem :
      (h : List Batch)
      → Stands (Gone token) Nothing (Other token) gone h
      → ItemsHold (Gone token) (version 0 h)
  newest_lem [] st = tt
  newest_lem (b ∷ older) st = st.1

nothing-All : (xs : List Item) → All Nothing xs
nothing-All [] = tt
nothing-All (i ∷ xs) = (tt, nothing-All xs)

-- A worker whose claim was lost is fenced off: where no item carries its token any more, then after
-- any further writes of others, in which every new claim has another token, its renewals of the
-- lease, its candidates and its verdicts are all refused and change nothing.
pub lost_claim_is_fenced :
    (token id : String) (now : ℕ) (b : Batch) (steps : List Step)
    → All (Gone token) b.items
    → All (Claims (Other token)) steps
    → IsRefused token id now (version 0 (run steps (b ∷ [])))
lost_claim_is_fenced token id now b steps h others = Gone-IsRefused token id now _ (
    newest_lem token _ (
      run-Stands (Gone token) Nothing (Other token) (gone token) steps (b ∷ []) others
        (tt, h, (nothing-All b.items, tt))))
