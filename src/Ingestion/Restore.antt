-- ===== src/Ingestion/Restore.antt =====
-- A deletion of an item and its undo.
use learn_loop.Prelude.{
  ℕ, ◌+◌, none, some, String, List, [], ◌∷◌, ◌++◌, true, false, ◌&&◌, eq_iff, ◌≡◌, refl, arith, any,
  if◌then◌else◌,
}
use learn_loop.States.{ItemState, item_code}
use learn_loop.Variants.Sessions.{is_reservable}
use learn_loop.Ingestion.Documents.{Batch, Item, item_in}
use learn_loop.Ingestion.Items.{is_item}
use learn_loop.Ingestion.Writes.{anywhere}
use learn_loop.Ingestion.Deletion.{
  delete_from, delete_first, mark_item_deleted, undo_to, undo_previous, undo_seen,
  undo_item_deletion, is_deletable, deletable_states, revived, is_in_flight, same_state,
}
use learn_loop.Ingestion.Only.{Others, holding, write_item-Only, find_item-Only}

-- The item as a deletion leaves it, and as the undo of that deletion leaves it.
abbrev pub deleted_item : ℕ → Item → Item
deleted_item now i = record i {
  previous_status = some i.status;
  status = ItemState.deleted;
  deleted_at = some now;
  updated_at = now;
}

abbrev pub restored_item : ℕ → Item → Item
restored_item now i = record i {
  variation = if is_in_flight i then revived i.variation else i.variation;
  previous_status = none;
  deleted_at = none;
  updated_at = now;
}

-- The batch with another item in the place and the revision that `n` writes make.
abbrev pub written : Batch → List Item → Item → List Item → ℕ → ℕ → Batch
written b pre i post n now = record b {
  items = pre ++ (i ∷ post);
  revision = b.revision + n;
  updated_at = now;
}

same_status : (s t : ItemState) → item_code s ≡ item_code t → s ≡ t
same_status s t e = ground arith

module _ (id : String) (b : Batch) (i : Item) (pre post : List Item) (before : Others id pre)
    (after : Others id post) (named : is_item id i ≡ true) where
  delete_from-Only :
      (s : ItemState) (now : ℕ)
      → delete_from id s now (some (holding b (pre ++ (i ∷ post)))) ≡ (
          if is_deletable id s now i
          then (
            some (
                written b pre
                  (record i {
                    previous_status = some s;
                    status = ItemState.deleted;
                    deleted_at = some now;
                    updated_at = now;
                  })
                  post
                  1
                  now),
            true,
          )
          else (some (holding b (pre ++ (i ∷ post))), false))
  unfolding delete_from
  delete_from-Only s now =
      write_item-Only id anywhere (is_deletable id s now)
        (λ j. record j {
          previous_status = some s;
          status = ItemState.deleted;
          deleted_at = some now;
        })
        now b i pre post (λ j e. ground arith) before after

  delete_first-Only :
      (ss : List ItemState) (now : ℕ)
      → any (λ s. item_in s i) ss ≡ true
      → is_reservable i.variation.submit_reservation now ≡ true
      → delete_first id ss now (some (holding b (pre ++ (i ∷ post))))
        ≡ (some (written b pre (deleted_item now i) post 1 now), true)
  unfolding delete_first
  delete_first-Only [] now e r = ground arith
  delete_first-Only (s ∷ ss) now e r = ground (
    arith,
    delete_from-Only s now,
    same_status i.status s,
    λ (q : any (λ s. item_in s i) ss ≡ true). delete_first-Only ss now q r,
  )

  marked-Only :
      (now : ℕ)
      → any (λ s. item_in s i) deletable_states ≡ true
      → is_reservable i.variation.submit_reservation now ≡ true
      → mark_item_deleted id now (some (holding b (pre ++ (i ∷ post))))
        ≡ (some (written b pre (deleted_item now i) post 1 now), true)
  unfolding mark_item_deleted
  marked-Only now e r = rw (delete_first-Only deletable_states now e r) refl

self_named : (i : Item) → is_item i.item_id i ≡ true
self_named i = (eq_iff i.item_id i.item_id).1 refl

status_refl : (s : ItemState) → same_state (some s) s ≡ true
status_refl s = ground arith

undo_to-Only :
    (b : Batch) (i : Item) (pre post : List Item) (now later : ℕ)
    → Others i.item_id pre
    → Others i.item_id post
    → undo_to
        (deleted_item now i)
        i.status
        later
        (some (written b pre (deleted_item now i) post 1 now))
      ≡ (some (written b pre (restored_item later i) post 2 later), true)
unfolding undo_to
undo_to-Only b i pre post now later before after = ground (
  arith,
  write_item-Only i.item_id anywhere
      (λ (j : Item).
        is_item i.item_id j && item_in ItemState.deleted j && same_state j.previous_status i.status)
      (λ (j : Item). record j {
        status = i.status;
        variation = if is_in_flight i then revived i.variation else j.variation;
        previous_status = none;
        deleted_at = none;
      })
      later (record b { revision = b.revision + 1; updated_at = now }) (deleted_item now i) pre post
      (λ j e. ground arith) before after,
  self_named i,
  status_refl i.status,
)

undo_found :
    (b : Batch) (i : Item) (pre post : List Item) (now later : ℕ)
    → Others i.item_id pre
    → Others i.item_id post
    → let d = written b pre (deleted_item now i) post 1 now in
      undo_item_deletion i.item_id later d (some d)
      ≡ (some (written b pre (restored_item later i) post 2 later), true)
unfolding undo_item_deletion undo_seen undo_previous
undo_found b i pre post now later before after =
    rw (find_item-Only i.item_id (deleted_item now i) pre post before (self_named i))
      (undo_to-Only b i pre post now later before after)

-- Undoing the deletion of an item restores it: of a batch in which one item has the id, where the
-- item was in a deletable status and no live submission held it, the deletion takes effect, and the
-- undo of it leaves the batch as it was, two revisions later, but for the times of the writes and
-- that a variation that was in flight is queued again, without its claim.
pub undo-mark_item_deleted :
    (b : Batch) (i : Item) (pre post : List Item) (now later : ℕ)
    → Others i.item_id pre
    → Others i.item_id post
    → any (λ s. item_in s i) deletable_states ≡ true
    → is_reservable i.variation.submit_reservation now ≡ true
    → let deleted = mark_item_deleted i.item_id now (some (holding b (pre ++ (i ∷ post)))) in
      (deleted.1 ≡ true)
      × (deleted.0 ≡ some (written b pre (deleted_item now i) post 1 now))
      × (undo_item_deletion i.item_id later
            (written b pre (deleted_item now i) post 1 now)
            deleted.0
          ≡ (some (written b pre (restored_item later i) post 2 later), true))
undo-mark_item_deleted b i pre post now later before after e r =
    rw (marked-Only i.item_id b i pre post before after (self_named i) now e r)
      (refl, refl, undo_found b i pre post now later before after)
