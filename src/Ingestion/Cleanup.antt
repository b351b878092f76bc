-- ===== src/Ingestion/Cleanup.antt =====
-- backend/app/infrastructure/ingestion/cleanup.py: the objects of a batch that ended are deleted.
use learn_loop.Prelude.{
  ℕ, ◌+◌, Option, none, some, String, List, [], ◌∷◌, Bool, ◌&&◌, not, is_none, str_eq,
  if◌then◌else◌, ◌==◌, Result, ok, err, ◌>>=◌,
}
use learn_loop.Ingestion.Documents.{Batch, Item, Image, Slot}
use learn_loop.Ingestion.Submits.{mark_batch_cleaned}

-- Which objects the storage has, by bucket and key in one name.
abbrev pub Objects : Type 0
Objects = String → Bool

-- `fails o`: the storage raises another error than that `o` is missing. `referenced k`: a problem has
-- the audit image `k`. `audit_key id i`: `build_audit_image_key` for the batch and the item, in the
-- bucket of the item's crop.
module _ (fails referenced : String → Bool) (audit_key : ℕ → Item → String) where
  -- `_delete_media`; an error leaves the objects as they are.
  unfoldable pub delete_media : Option String → Objects → Result Objects Objects
  delete_media none objects = ok objects
  delete_media (some o) objects =
      if fails o then err objects else ok (λ x. objects x && not (str_eq x o))

  unfoldable pub clean_images : List Image → Objects → Result Objects Objects
  unfolding delete_media
  clean_images [] objects = ok objects
  clean_images (m ∷ ms) objects =
      delete_media (some m.source_image) objects >>= λ after. clean_images ms after

  -- The copy that was kept for an admission, unless a problem has it.
  abbrev pub abandoned_copy : ℕ → Item → Option String
  abandoned_copy id i =
      if is_none i.crop
      then none
      else if is_none i.variation.original
      then none
      else if referenced (audit_key id i)
      then none
      else some (audit_key id i)

  unfoldable pub clean_items : ℕ → List Item → Objects → Result Objects Objects
  unfolding delete_media
  clean_items id [] objects = ok objects
  clean_items id (i ∷ is) objects =
      delete_media i.crop objects
      >>= (λ after. delete_media (abandoned_copy id i) after >>= λ rest. clean_items id is rest)

  unfoldable pub cleanup_batch_media : ℕ → Batch → Objects → Result Objects Objects
  unfolding clean_images clean_items
  cleanup_batch_media id b objects =
      clean_images b.images objects >>= λ after. clean_items id b.items after

  -- The objects, or those at a raise, the batches by their ids, and how many were cleaned.
  abbrev pub Cleaned : Type 0
  Cleaned = Result Objects Objects × (ℕ → Slot) × ℕ

  abbrev pub marked : ℕ → ℕ → (ℕ → Slot) → ℕ → Slot
  unfolding mark_batch_cleaned
  marked id now batches k = if k == id then (mark_batch_cleaned now (batches k)).0 else batches k

  -- A turn of the loop of `run_batch_cleanup`: what a deletion raises ends the loop.
  unfoldable pub clean_next :
      ℕ
      → ℕ
      → (Objects → (ℕ → Slot) → ℕ → Cleaned)
      → (ℕ → Slot)
      → ℕ
      → Result Objects Objects
      → Cleaned
  unfolding mark_batch_cleaned
  clean_next now id rest batches n (err after) = (err after, batches, n)
  clean_next now id rest batches n (ok after) = rest after (marked id now batches) (n + 1)

  -- The loop over the candidates as they were read.
  unfoldable pub clean_all : ℕ → List (ℕ × Batch) → Objects → (ℕ → Slot) → ℕ → Cleaned
  unfolding cleanup_batch_media clean_next
  clean_all now [] objects batches n = (ok objects, batches, n)
  clean_all now ((id, b) ∷ rest) objects batches n =
      clean_next now id (λ after batches' n'. clean_all now rest after batches' n') batches n
        (cleanup_batch_media id b objects)

  unfoldable pub run_batch_cleanup : ℕ → List (ℕ × Batch) → Objects → (ℕ → Slot) → Cleaned
  unfolding clean_all
  run_batch_cleanup now candidates objects batches = clean_all now candidates objects batches 0
