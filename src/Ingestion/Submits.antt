-- ===== src/Ingestion/Submits.antt =====
-- Submitting items: reservations, the outcomes of an original submission, and the completion of a
-- batch.
use learn_loop.Prelude.{
  ℕ, ◌+◌, Option, none, some, String, List, [], ◌∷◌, Bool, true, false, ◌&&◌, ◌||◌, not, is_none,
  is_some, any, all, map, str_eq, if◌then◌else◌, leb, ltb, ◌==◌,
}
use learn_loop.States.{BatchState, ItemState, VariationStatus, batch_code}
use learn_loop.Variants.Sessions.{is_reservable, Reservation}
use learn_loop.Variants.Repository.{submit_reservation_timeout}
use learn_loop.Ingestion.Documents.{Batch, Item, Outcome, Slot, item_in, workflow_in}
use learn_loop.Ingestion.Writes.{write, write_item, anywhere}
use learn_loop.Ingestion.Images.{Attempt, done, revision_guard, outcome_of}
use learn_loop.Ingestion.Items.{is_item}

abbrev pub batch_in : BatchState → Batch → Bool
batch_in s b = batch_code b.status == batch_code s

-- One turn of the loop of `reserve_items_for_original_submit`; the token is the request's.
unfoldable pub reserve_item : String → String → ℕ → Slot → Slot × Bool
reserve_item id token now =
    write_item (batch_in BatchState.active)
      (λ i.
        is_item id i
        && item_in ItemState.ready i
        && is_none i.variation.original
        && workflow_in VariationStatus.not_requested i
        && is_reservable i.variation.submit_reservation now)
      (λ i. record i {
        variation = record (i.variation) {
          submit_reservation =
              some (record { token = token; expires_at = now + submit_reservation_timeout });
        };
      })
      now

-- The loop, for a caller that no one interferes with: the ids that were reserved, and the batch.
unfoldable pub reserve_items : List String → String → ℕ → Slot → List String × Slot
unfolding reserve_item
reserve_items [] token now slot = ([], slot)
reserve_items (id ∷ ids) token now slot =
    let (slot', matched) = reserve_item id token now slot in
    let (reserved, slot'') = reserve_items ids token now slot' in
    (if matched then id ∷ reserved else reserved, slot'')

abbrev pub holds_live : String → ℕ → Option Reservation → Bool
holds_live token now none = false
holds_live token now (some r) = str_eq r.token token && ltb now r.expires_at

abbrev pub holds : String → Option Reservation → Bool
holds token none = false
holds token (some r) = str_eq r.token token

-- A live batch: active and not expired.
abbrev pub is_live_batch : ℕ → Batch → Bool
is_live_batch now b = batch_in BatchState.active b && ltb now b.expires_at

abbrev pub extend : ℕ → Option Reservation → Option Reservation
extend now none = none
extend now (some r) = some (record r { expires_at = now + submit_reservation_timeout })

unfoldable pub renew_submit_reservation : String → String → ℕ → Slot → Slot × Bool
renew_submit_reservation id token now =
    write_item (is_live_batch now)
      (λ i.
        is_item id i
        && not (item_in ItemState.deleted i)
        && holds_live token now i.variation.submit_reservation)
      (λ i. record i {
        variation = record (i.variation) {
          submit_reservation = extend now i.variation.submit_reservation;
        };
      })
      now

-- What a submit request found out about one item: the new status and the outcome.
pub record ItemResult : Type 0 where
  pub item_id : String
  pub status : ItemState
  pub submit : Outcome

-- The last result with the id, as `{result["itemId"]: result ...}` keeps it.
pub result_for : String → List ItemResult → Option ItemResult
result_for id [] = none
result_for id (r ∷ rs) = elim (result_for id rs) [
  | some q ↦ some q
  | none ↦ if str_eq r.item_id id then some r else none
]

abbrev pub released : Item → Item
released i = record i { variation = record (i.variation) { submit_reservation = none } }

abbrev pub recorded : Option ItemResult → ℕ → Item → Item
recorded none now i = i
recorded (some r) now i =
    if item_in ItemState.deleted i
    then i
    else if is_some i.variation.original || not (workflow_in VariationStatus.not_requested i)
    then i
    else record i { status = r.status; submit = r.submit; updated_at = now }

-- One turn of the loop over the items.
unfoldable pub complete_item : List ItemResult → String → ℕ → Item → Item
unfolding result_for
complete_item results token now i =
    if holds token i.variation.submit_reservation
    then recorded (result_for i.item_id results) now (released i)
    else i

-- Every item that is not deleted is submitted, and there is one.
unfoldable pub all_submitted : List Item → Bool
all_submitted items =
    all (λ (i : Item). item_in ItemState.deleted i || item_in ItemState.submitted i) items
    && any (item_in ItemState.submitted) items

abbrev pub completed_status : List Item → BatchState → BatchState
completed_status items old = if all_submitted items then BatchState.completed else old

-- The guarded write of a submit request: the items that it read, with their results, are written
-- back.
unfoldable pub write_submit : List ItemResult → String → ℕ → Batch → Slot → Slot × Bool
unfolding complete_item all_submitted
write_submit results token now seen =
    let items = map (complete_item results token now) seen.items in
    write (revision_guard seen)
      (λ b. record b { items = items; status = completed_status items b.status }) now

-- One turn of the loop of `submit_items_and_complete_batch`, from the batch that it read.
unfoldable pub submit_attempt :
    List ItemResult → String → ℕ → Batch → Slot → Attempt (Unit {0}) × Slot
unfolding write_submit
submit_attempt results token now seen slot =
    outcome_of tt (write_submit results token now seen slot)

unfoldable pub record_variant_submission : String → String → ℕ → Slot → Slot × Bool
record_variant_submission id problem_id now =
    write_item (batch_in BatchState.active) (λ i. is_item id i && item_in ItemState.ready i)
      (λ i. record i {
        status = ItemState.submitted;
        submit = record {
          submitted_problem_id = some problem_id;
          success = some true;
          failure_code = none;
          failure_message = none;
        };
        variation = record (i.variation) { submit_reservation = none };
      })
      now

-- One turn of the loop of `complete_variant_batch_if_all_submitted`.
unfoldable pub complete_attempt : ℕ → Batch → Slot → Attempt Bool × Slot
unfolding all_submitted
complete_attempt now seen slot =
    if batch_in BatchState.completed seen
    then (done true, slot)
    else if all_submitted seen.items
    then outcome_of true (
        write (λ b. batch_in BatchState.active b && revision_guard seen b)
          (λ b. record b { status = BatchState.completed }) now slot)
    else (done false, slot)

-- `mark_batch_cleaned`, and whether `find_cleanup_candidates` finds a batch.
unfoldable pub mark_batch_cleaned : ℕ → Slot → Slot × Bool
mark_batch_cleaned now = write anywhere (λ b. record b { status = BatchState.deleted }) now

pub is_cleanup_candidate : ℕ → Batch → Bool
is_cleanup_candidate now b =
    batch_in BatchState.expired b
    || batch_in BatchState.completed b
    || (batch_in BatchState.active b && leb b.expires_at now)
