-- ===== src/Ingestion/Items.antt =====
-- The extraction of items: claims with leases, results that only the holder of the lease may land,
-- retries and the plain edit of a draft.
use learn_loop.Prelude.{
  ℕ, ◌+◌, Option, none, some, String, List, Bool, true, false, ◌&&◌, ◌||◌, is_some, str_eq,
  if◌then◌else◌, leb, ◌==◌,
}
use learn_loop.States.{ItemState, VariationStatus}
use learn_loop.Ingestion.Documents.{
  Batch, Item, Draft, Extracted, Slot, item_in, workflow_in, find_item,
}
use learn_loop.Ingestion.Writes.{write_item, anywhere}

abbrev pub is_item : String → Item → Bool
is_item id i = str_eq i.item_id id

-- `leaseUntil` is null, or not after `now`.
abbrev pub is_free : Option ℕ → ℕ → Bool
is_free none now = true
is_free (some t) now = leb t now

abbrev pub has_expired : Option ℕ → ℕ → Bool
has_expired none now = false
has_expired (some t) now = leb t now

-- `{"leaseUntil": lease_until}`
abbrev pub same_lease : Option ℕ → Option ℕ → Bool
same_lease none none = true
same_lease (some a) (some b) = a == b
same_lease _ _ = false

abbrev pub is_claimable : String → ℕ → Item → Bool
is_claimable id now i =
    is_item id i
    && (item_in ItemState.queued i || item_in ItemState.extracting i)
    && workflow_in VariationStatus.not_requested i
    && is_free i.lease_until now

-- What the caller gets is the item afterwards, whose lease is the one it must show.
unfoldable pub claim_item : String → ℕ → ℕ → Slot → Slot × Bool
claim_item id lease_timeout now =
    write_item anywhere (is_claimable id now)
      (λ i. record i {
        status = ItemState.extracting;
        lease_until = some (now + lease_timeout);
        extraction = record (i.extraction) { request_started_at = some now };
        retry_count = i.retry_count + 1;
      })
      now

unfoldable pub save_extraction_success :
    String → String → Draft → Extracted → Option ℕ → ℕ → Slot → Slot × Bool
save_extraction_success id crop draft extraction lease now =
    write_item anywhere
      (λ i.
        is_item id i
        && item_in ItemState.extracting i
        && workflow_in VariationStatus.not_requested i
        && same_lease i.lease_until lease)
      (λ i. record i {
        status = ItemState.ready;
        crop = some crop;
        draft = draft;
        extraction = extraction;
        lease_until = none;
      })
      now

unfoldable pub save_extraction_failure : String → Extracted → Option ℕ → ℕ → Slot → Slot × Bool
save_extraction_failure id extraction lease now =
    write_item anywhere
      (λ i. is_item id i && item_in ItemState.extracting i && same_lease i.lease_until lease)
      (λ i. record i { status = ItemState.failed; extraction = extraction; lease_until = none }) now

-- The write of `reset_item_for_retry` for an item with a confirmed source.
unfoldable pub restore_ready : String → ℕ → Slot → Slot × Bool
restore_ready id now =
    write_item anywhere (λ i. is_item id i && item_in ItemState.submit_failed i)
      (λ i. record i { status = ItemState.ready; lease_until = none }) now

-- `_reset_item_for_retry_unclaimed`
unfoldable pub requeue : String → ℕ → Slot → Slot × Bool
requeue id now =
    write_item anywhere
      (λ i.
        is_item id i
        && (item_in ItemState.failed i
            || item_in ItemState.submit_failed i
            || (item_in ItemState.extracting i && has_expired i.lease_until now)))
      (λ i. record i { status = ItemState.queued; lease_until = none }) now

abbrev reset_found : Option Item → ℕ → Slot → Slot × Bool
reset_found none now slot = (slot, false)
reset_found (some i) now slot =
    if is_some i.variation.original
    then restore_ready i.item_id now slot
    else requeue i.item_id now slot

-- `seen` is the batch that was read; `false` stands for its absence as well.
unfoldable pub reset_item_for_retry : String → ℕ → Batch → Slot → Slot × Bool
unfolding restore_ready requeue
reset_item_for_retry id now seen slot = reset_found (find_item id seen.items) now slot

-- The keys of a draft that an edit sends.
pub record DraftUpdate : Type 0 where
  pub text : Option (Option String)
  pub problem_type : Option (Option String)
  pub graph_dsl : Option (Option String)
  pub correct_answer : Option (Option String)
  pub subject : Option (Option String)
  pub tags : Option (List String)

abbrev pub sent {ℓ} : {A : Type ℓ} → Option A → A → A
sent none old = old
sent (some new) old = new

unfoldable pub merge_draft : DraftUpdate → Draft → Draft
merge_draft u d = record {
  content = record {
    text = sent u.text d.content.text;
    problem_type = sent u.problem_type d.content.problem_type;
    graph_dsl = sent u.graph_dsl d.content.graph_dsl;
    correct_answer = sent u.correct_answer d.content.correct_answer;
    subject = sent u.subject d.content.subject;
  };
  tags = sent u.tags d.tags;
}

unfoldable pub update_item_draft : String → DraftUpdate → ℕ → Slot → Slot × Bool
unfolding merge_draft
update_item_draft id u now =
    write_item anywhere (is_item id) (λ i. record i { draft = merge_draft u i.draft }) now
