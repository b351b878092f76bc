-- ===== src/Ingestion/Stable.antt =====
-- Properties of the items that every write of the repository keeps, and with them any history.
use learn_loop.Prelude.{
  ℕ, Option, none, some, List, [], ◌∷◌, Bool, true, ◌≡◌, ◌&&◌, suc, refl, arith, subst, All, String,
  map,
}
use learn_loop.States.{ItemState}
use learn_loop.Variants.Edit.{CandidateUpdate}
use learn_loop.Ingestion.Documents.{
  Draft, Batch, Item, Image, Slot, build_item, find_item, find_image,
}
use learn_loop.Ingestion.Images.{
  new_items, commit_found, commit_attempt, commit_boxes, next_order, outcome_of,
}
use learn_loop.Ingestion.Items.{DraftUpdate, merge_draft}
use learn_loop.Ingestion.Deletion.{undo_to, undo_item_deletion, undo_seen, undo_previous}
use learn_loop.Ingestion.Submits.{ItemResult, complete_item, write_submit, complete_attempt}
use learn_loop.Variants.Drafts.{Candidate}
use learn_loop.Ingestion.Variations.{
  recandidated, redrafted, is_editable, write_candidate, write_draft_variant, draft_attempt,
  draft_found, landed_or,
}
use learn_loop.Ingestion.Work.{write_claim, claim_seen, claim_variation_work}
use learn_loop.Ingestion.Keeps.{
  ItemsHold, Keeps, update-Keeps, item-Keeps, append-All, map-All, found_lem, new_items-All,
}
use learn_loop.Ingestion.History.{
  Write, apply, Guarded, apply_guarded, Loose, apply_loose, Step, act, step, push, run, version,
  candidate_found,
}
use learn_loop.Ingestion.Moves.{from_seen_lem}
use learn_loop.Ingestion.Serial.{Falls, step-Falls, stale_lost}

-- What a property of items has to stand: a new item has it, and every change keeps it. `Q` is what
-- an undo needs of the item that it read, and `C` what is known of the token of a new claim.
pub record Stable (P Q : Item → Type 0) (C : String → Type 0) : Type 0 where
  pub weaken : (i : Item) → P i → Q i
  pub built :
      (item id : String) (order now : ℕ) (box : Option String)
      → P (build_item item id order now box)
  pub written : (w : Write) → Keeps P (apply w)
  pub completed :
      (results : List ItemResult) (token : String) (now : ℕ) (i : Item)
      → P i
      → P (complete_item results token now i)
  pub recandidate :
      (merged : Candidate) (changed : Bool) (tags : Option (List String)) (now : ℕ) (same : Bool)
      (i : Item)
      → same && is_editable i ≡ true
      → P i
      → P (record (recandidated merged changed tags i) { updated_at = now })
  pub redraft :
      (edit : Draft → Draft) (changed : Bool) (now : ℕ) (i : Item)
      → P i
      → P (record (redrafted edit changed i) { updated_at = now })
  pub undone :
      (item : Item) (previous : ItemState) (now : ℕ) → Q item → Keeps P (undo_to item previous now)
  pub claimed :
      (id token : String) (timeout now : ℕ) (item : Item)
      → C token
      → Keeps P (write_claim id token timeout now item)

-- The tokens of the claims of a step.
abbrev pub Claims : (String → Type 0) → Step → Type 0
Claims C (Step.loose (Loose.claim_work id token timeout now) k) = C token
Claims C _ = Unit

outcome_lem :
    (P : Item → Type 0) {A : Type 0} (a : A) (w : Slot × Bool)
    → ItemsHold P w.0
    → ItemsHold P (outcome_of a w).1
outcome_lem P a (slot, matched) h = h

landed_lem : (P : Item → Type 0) (w : Slot × Bool) → ItemsHold P w.0 → ItemsHold P (landed_or w).1
landed_lem P (slot, matched) h = h

module _ (P Q : Item → Type 0) (C : String → Type 0) (stable : Stable P Q C) where
  submit-Keeps :
      (results : List ItemResult) (token : String) (now : ℕ) (seen : Batch)
      → All P seen.items
      → Keeps P (write_submit results token now seen)
  unfolding write_submit
  submit-Keeps results token now seen s = update-Keeps P _ _ (λ c all.
      map-All P (complete_item results token now) seen.items (stable.completed results token now) s)

  commit-Keeps :
      (ids : ℕ → String) (id : String) (now : ℕ) (seen : Batch) (image : Image)
      → Keeps P (commit_boxes ids id now seen image)
  commit-Keeps ids id now seen image = update-Keeps P _ _ (λ c all. append-All P c.items _ all (
      new_items-All P ids id (next_order seen.items) (map (λ x. some x) image.boxes) now
        (λ item id order. stable.built item id order now)))

  candidate-Keeps :
      (id : String) (u : CandidateUpdate) (tags : Option (List String)) (r now : ℕ) (seen : Batch)
      (item : Item)
      → Keeps P (write_candidate id u tags r now seen item)
  unfolding write_candidate
  candidate-Keeps id u tags r now seen item =
      item-Keeps P _ _ _ _ (λ i m p. stable.recandidate _ _ tags now _ i m p)

  draft-Keeps :
      (id : String) (u : DraftUpdate) (r now : ℕ) (seen : Batch) (item : Item)
      → Keeps P (write_draft_variant id u r now seen item)
  unfolding write_draft_variant
  draft-Keeps id u r now seen item =
      item-Keeps P _ _ _ _ (λ i m p. stable.redraft (λ d. merge_draft u d) _ now i p)

  complete-holds :
      (now : ℕ) (seen b : Batch)
      → All P b.items
      → ItemsHold P (complete_attempt now seen (some b)).1
  unfolding complete_attempt
  complete-holds now seen b h = ground arith

  commit-holds :
      (ids : ℕ → String) (id : String) (now : ℕ) (seen b : Batch) (found : Option Image)
      → All P b.items
      → ItemsHold P (commit_found ids id now seen found (some b)).1
  unfolding commit_attempt
  commit-holds ids id now seen b none h = h
  commit-holds ids id now seen b (some image) h = ground (
    arith,
    outcome_lem P (new_items ids id (next_order seen.items) (map (λ x. some x) image.boxes) now)
        (commit_boxes ids id now seen image (some b))
        ((commit-Keeps ids id now seen image).keeps b h),
  )

  draft-holds :
      (id : String) (u : DraftUpdate) (r now : ℕ) (seen b : Batch) (found : Option Item)
      → All P b.items
      → ItemsHold P (draft_found id u r now seen found (some b)).1
  unfolding draft_attempt
  draft-holds id u r now seen b none h = h
  draft-holds id u r now seen b (some item) h = ground (
    arith,
    landed_lem P (write_draft_variant id u r now seen item (some b))
        ((draft-Keeps id u r now seen item).keeps b h),
  )

  candidate-holds :
      (id : String) (u : CandidateUpdate) (tags : Option (List String)) (r now : ℕ) (seen b : Batch)
      (found : Option Item)
      → All P b.items
      → ItemsHold P (candidate_found id u tags r now seen found (some b))
  unfolding candidate_found
  candidate-holds id u tags r now seen b none h = h
  candidate-holds id u tags r now seen b (some item) h =
      (candidate-Keeps id u tags r now seen item).keeps b h

  undo_previous-holds :
      (i : Item) (previous : Option ItemState) (now : ℕ) (b : Batch)
      → Q i
      → All P b.items
      → ItemsHold P (undo_previous i previous now (some b)).0
  unfolding undo_previous
  undo_previous-holds i none now b s h = h
  undo_previous-holds i (some p) now b s h = ground (arith, (stable.undone i p now s).keeps b h)

  undo_seen-holds :
      (now : ℕ) (b : Batch) (found : Option Item)
      → ((i : Item) → found ≡ some i → Q i)
      → All P b.items
      → ItemsHold P (undo_seen found now (some b)).0
  unfolding undo_seen
  undo_seen-holds now b none s h = h
  undo_seen-holds now b (some i) s h = undo_previous-holds i i.previous_status now b (s i refl) h

  claim_seen-holds :
      (id token : String) (timeout now : ℕ) (b : Batch) (found : Option Item)
      → C token
      → All P b.items
      → ItemsHold P (claim_seen id token timeout now found (some b)).0
  unfolding claim_variation_work
  claim_seen-holds id token timeout now b none c h = h
  claim_seen-holds id token timeout now b (some i) c h =
      ground (arith, (stable.claimed id token timeout now i c).keeps b h)

  apply_guarded-holds :
      (g : Guarded) (b : Batch) → All P b.items → ItemsHold P (apply_guarded g b (some b))
  unfolding apply_guarded
  apply_guarded-holds (Guarded.commit ids id now) b h =
      commit-holds ids id now b b (find_image id b.images) h
  apply_guarded-holds (Guarded.submit results token now) b h =
      outcome_lem P tt (write_submit results token now b (some b))
        ((submit-Keeps results token now b h).keeps b h)
  apply_guarded-holds (Guarded.complete now) b h = complete-holds now b b h
  apply_guarded-holds (Guarded.edit_draft id u r now) b h =
      draft-holds id u r now b b (find_item id b.items) h
  apply_guarded-holds (Guarded.edit_candidate id u tags r now) b h =
      candidate-holds id u tags r now b b (find_item id b.items) h

  apply_loose-holds :
      (l : Loose) (k : ℕ) (seen b : Batch)
      → Claims C (Step.loose l k)
      → All Q seen.items
      → All P b.items
      → ItemsHold P (apply_loose l seen (some b))
  unfolding apply_loose undo_item_deletion claim_variation_work
  apply_loose-holds (Loose.undo id now) k seen b c s h =
      undo_seen-holds now b (find_item id seen.items) (λ i e. found_lem Q id seen.items i s e) h
  apply_loose-holds (Loose.claim_work id token timeout now) k seen b c s h =
      claim_seen-holds id token timeout now b (find_item id seen.items) c h

  version_lem :
      (k : ℕ) (h : List Batch) (b : Batch)
      → All (λ (v : Batch). All Q v.items) h
      → version k h ≡ some b
      → All Q b.items
  version_lem k [] b all e = ground arith
  version_lem ℕ.zero (c ∷ h) b all e = subst (λ (o : Option Batch). ItemsHold Q o) e all.0
  version_lem (suc k) (c ∷ h) b all e = version_lem k h b all.1 e

  act-holds :
      (s : Step) (b : Batch) (older : List Batch)
      → Claims C s
      → Falls (b ∷ older)
      → All (λ (v : Batch). All Q v.items) (b ∷ older)
      → All P b.items
      → ItemsHold P (act s b older)
  unfolding act
  act-holds (Step.blind w) b older c f q h = (stable.written w).keeps b h
  act-holds (Step.guarded g ℕ.zero) b older c f q h = apply_guarded-holds g b h
  act-holds (Step.guarded g (suc k)) b older c f q h = rw (stale_lost g k b older f) h
  act-holds (Step.loose l k) b older c f q h =
      from_seen_lem (ItemsHold P) (apply_loose l) (version k (b ∷ older)) h
        (λ seen e. apply_loose-holds l k seen b c (version_lem k (b ∷ older) seen q e) h)

  -- Of the newest version all items have `P`, and of every version `Q`.
  abbrev pub Stands : List Batch → Type 0
  Stands [] = Unit
  Stands (b ∷ older) =
      Falls (b ∷ older) × All P b.items × All (λ (v : Batch). All Q v.items) (b ∷ older)

  weaken-All : (xs : List Item) → All P xs → All Q xs
  weaken-All [] h = tt
  weaken-All (i ∷ xs) h = (stable.weaken i h.0, weaken-All xs h.1)

  push-Stands :
      (slot : Slot) (b : Batch) (older : List Batch)
      → Falls (push slot b older)
      → ItemsHold P slot
      → All P b.items
      → All (λ (v : Batch). All Q v.items) (b ∷ older)
      → Stands (push slot b older)
  push-Stands none b older f k h q = (f, h, q)
  push-Stands (some c) b older f k h q = ground (arith, f, k, h, q, weaken-All c.items k)

  step-Stands : (s : Step) (h : List Batch) → Claims C s → Stands h → Stands (step s h)
  unfolding step
  step-Stands s [] c st = tt
  step-Stands s (b ∷ older) c st =
      push-Stands (act s b older) b older (step-Falls s (b ∷ older) st.0)
        (act-holds s b older c st.0 st.2 st.1) st.1 st.2

  -- What every write keeps holds after any writes.
  pub run-Stands :
      (steps : List Step) (h : List Batch) → All (Claims C) steps → Stands h → Stands (run steps h)
  unfolding run
  run-Stands [] h c st = st
  run-Stands (s ∷ steps) h c st = run-Stands steps (step s h) c.1 (step-Stands s h c.0 st)
