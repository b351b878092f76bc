-- ===== src/Ingestion/Writes.antt =====
-- The shape of the repository's writes: one document, one filter, one positional change of an item
-- or an image, and the next revision of the batch.
use learn_loop.Prelude.{
  arith, ℕ, ◌+◌, ◌≡◌, ◌⊎◌, refl, none, some, List, [], ◌∷◌, Bool, true, ◌&&◌, any, All, update_one,
  update_first, Bool-cases, inl, inr,
}
use learn_loop.Ingestion.Documents.{Batch, Image, Item, Slot}

-- Any change under any filter, `$inc` of the revision included.
abbrev pub write : (Batch → Bool) → (Batch → Batch) → ℕ → Slot → Slot × Bool
write filter change now =
    update_one filter (λ b. record (change b) { revision = b.revision + 1; updated_at = now })

-- `{"items": {"$elemMatch": matches}}` and `items.$`.
abbrev pub write_item : (Batch → Bool) → (Item → Bool) → (Item → Item) → ℕ → Slot → Slot × Bool
write_item guard matches change now =
    write (λ b. guard b && any matches b.items)
      (λ b. record b {
        items = update_first matches (λ i. record (change i) { updated_at = now }) b.items;
      })
      now

-- `{"images": {"$elemMatch": matches}}` and `images.$`.
abbrev pub write_image : (Batch → Bool) → (Image → Bool) → (Image → Image) → ℕ → Slot → Slot × Bool
write_image guard matches change now =
    write (λ b. guard b && any matches b.images)
      (λ b. record b {
        images = update_first matches (λ i. record (change i) { updated_at = now }) b.images;
      })
      now

abbrev pub anywhere : Batch → Bool
anywhere b = true

module _ {ℓ} {A : Type ℓ} (P : A → Type 0) where
  -- A positional change keeps what it keeps of the element that matches.
  pub update_first-All :
      (matches : A → Bool) (change : A → A) (xs : List A)
      → ((x : A) → matches x ≡ true → P x → P (change x))
      → All P xs
      → All P (update_first matches change xs)
  update_first-All matches change [] keep h = tt
  update_first-All matches change (x ∷ xs) keep h = elim (Bool-cases (matches x)) [
    | inl m ↦ rw m (keep x m h.0, h.1)
    | inr n ↦ rw n (h.0, update_first-All matches change xs keep h.1)
  ]

-- What every write does to a document that is there: nothing, or a document of the next revision.
abbrev pub Moves : Batch → Slot → Type 0
Moves b none = ⊥
Moves b (some c) = (c ≡ b) ⊎ (c.revision ≡ b.revision + 1)

pub write-Moves :
    (filter : Batch → Bool) (change : Batch → Batch) (now : ℕ) (b : Batch)
    → Moves b (write filter change now (some b)).0
write-Moves filter change now b = elim (Bool-cases (filter b)) [
  | inl m ↦ rw m (inr refl)
  | inr n ↦ rw n (inl refl)
]

-- What some element passes, some element passes of a weaker test.
pub any-weaken {ℓ} :
    {A : Type ℓ} (q r : A → Bool) (xs : List A)
    → ((x : A) → q x ≡ true → r x ≡ true)
    → any q xs ≡ true
    → any r xs ≡ true
any-weaken q r [] w h = ground arith
any-weaken q r (x ∷ xs) w h = ground (arith, h, w x, λ (t : any q xs ≡ true). any-weaken q r xs w t)
