-- ===== src/Ingestion/Deletion.antt =====
-- Deleting an item and undoing it.
use learn_loop.Prelude.{
  ℕ, Option, none, some, String, List, [], ◌∷◌, Bool, true, false, ◌&&◌, ◌||◌, if◌then◌else◌, ◌==◌,
}
use learn_loop.States.{ItemState, VariationStatus, item_code}
use learn_loop.Variants.Sessions.{is_reservable}
use learn_loop.Ingestion.Documents.{Batch, Item, Workflow, Slot, item_in, workflow_in, find_item}
use learn_loop.Ingestion.Writes.{write_item, anywhere}
use learn_loop.Ingestion.Items.{is_item}

-- The attempt at one observed status: neither deleted nor reserved by a live submission.
abbrev pub is_deletable : String → ItemState → ℕ → Item → Bool
is_deletable id status now i =
    is_item id i && item_in status i && is_reservable i.variation.submit_reservation now

unfoldable pub delete_from : String → ItemState → ℕ → Slot → Slot × Bool
delete_from id status now =
    write_item anywhere (is_deletable id status now)
      (λ i. record i {
        previous_status = some status;
        status = ItemState.deleted;
        deleted_at = some now;
      })
      now

-- The statuses of the loop, in order.
abbrev pub deletable_states : List ItemState
deletable_states =
    ItemState.queued ∷ ItemState.extracting ∷ ItemState.ready ∷ ItemState.failed
    ∷ ItemState.submit_failed ∷ []

-- The loop over the statuses, the first that matches winning.
unfoldable pub delete_first : String → List ItemState → ℕ → Slot → Slot × Bool
unfolding delete_from
delete_first id [] now slot = (slot, false)
delete_first id (s ∷ statuses) now slot =
    let (slot', deleted) = delete_from id s now slot in
    let (slot'', later) = delete_first id statuses now slot' in
    if deleted then (slot', true) else (slot'', later)

abbrev is_over : Option Item → Bool
is_over none = false
is_over (some i) = item_in ItemState.deleted i || item_in ItemState.submitted i

abbrev final_item : String → Slot → Option Item
final_item id none = none
final_item id (some b) = find_item id b.items

-- For a caller that no one interferes with; the final read decides where no attempt matched.
unfoldable pub mark_item_deleted : String → ℕ → Slot → Slot × Bool
unfolding delete_first
mark_item_deleted id now slot =
    let (slot', deleted) = delete_first id deletable_states now slot in
    (slot', deleted || is_over (final_item id slot'))

-- Work that was in flight is queued again, without its claim.
abbrev pub revived : Workflow → Workflow
revived v = elim v.status [
  | VariationStatus.queued ↦ record v {
    status = VariationStatus.queued;
    claim_token = none;
    lease_until = none;
  }
  | VariationStatus.generating ↦ record v {
    status = VariationStatus.queued;
    claim_token = none;
    lease_until = none;
  }
  | VariationStatus.validating ↦ record v {
    status = VariationStatus.queued;
    claim_token = none;
    lease_until = none;
  }
  | _ ↦ v
]

abbrev pub is_in_flight : Item → Bool
is_in_flight i =
    workflow_in VariationStatus.queued i
    || workflow_in VariationStatus.generating i
    || workflow_in VariationStatus.validating i

abbrev pub same_state : Option ItemState → ItemState → Bool
same_state none s = false
same_state (some p) s = item_code p == item_code s

-- The write of an undo, for the item that was read: its variation only if that was in flight.
unfoldable pub undo_to : Item → ItemState → ℕ → Slot → Slot × Bool
undo_to seen previous now =
    write_item anywhere
      (λ i.
        is_item seen.item_id i
        && item_in ItemState.deleted i
        && same_state i.previous_status previous)
      (λ i. record i {
        status = previous;
        variation = if is_in_flight seen then revived seen.variation else i.variation;
        previous_status = none;
        deleted_at = none;
      })
      now

unfoldable pub undo_previous : Item → Option ItemState → ℕ → Slot → Slot × Bool
unfolding undo_to
undo_previous i none now slot = (slot, false)
undo_previous i (some p) now slot =
    if item_in ItemState.deleted i then undo_to i p now slot else (slot, false)

unfoldable pub undo_seen : Option Item → ℕ → Slot → Slot × Bool
unfolding undo_previous
undo_seen none now slot = (slot, false)
undo_seen (some i) now slot = undo_previous i i.previous_status now slot

-- `seen` is the batch that was read.
unfoldable pub undo_item_deletion : String → ℕ → Batch → Slot → Slot × Bool
unfolding undo_seen
undo_item_deletion id now seen slot = undo_seen (find_item id seen.items) now slot
