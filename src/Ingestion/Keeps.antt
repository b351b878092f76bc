-- ===== src/Ingestion/Keeps.antt =====
-- Writes that keep a property of each item.
use learn_loop.Prelude.{
  ℕ, ◌+◌, Option, none, some, List, [], ◌∷◌, Bool, true, ◌≡◌, ◌++◌, arith, inl, inr, All,
  Bool-cases, String, map, update_first, update_one,
}
use learn_loop.Ingestion.Documents.{Batch, Item, Slot, build_item, find_item}
use learn_loop.Ingestion.Writes.{update_first-All}
use learn_loop.Ingestion.Images.{new_items}

-- The items of a document that is there have the property.
abbrev pub ItemsHold : (Item → Type 0) → Slot → Type 0
ItemsHold P none = Unit
ItemsHold P (some b) = All P b.items

pub record Keeps (P : Item → Type 0) (w : Slot → Slot × Bool) : Type 0 where
  pub keeps : (b : Batch) → All P b.items → ItemsHold P (w (some b)).0

module _ (P : Item → Type 0) where
  pub update-Keeps :
      (filter : Batch → Bool) (change : Batch → Batch)
      → ((b : Batch) → All P b.items → All P (change b).items)
      → Keeps P (update_one filter change)
  update-Keeps filter change keep = record {
    keeps = λ b all. elim (Bool-cases (filter b)) [ inl m ↦ rw m (keep b all) | inr n ↦ rw n all ];
  }

  -- A positional change of the items.
  pub item-Keeps :
      (filter : Batch → Bool) (matches : Item → Bool) (change : Item → Item) (now : ℕ)
      → ((i : Item) → matches i ≡ true → P i → P (change i))
      → Keeps P (
          update_one filter (λ b. record b {
            items = update_first matches change b.items;
            revision = b.revision + 1;
            updated_at = now;
          }))
  item-Keeps filter matches change now keep =
      update-Keeps filter _ (λ b all. update_first-All P matches change b.items keep all)

  pub append-All : (xs ys : List Item) → All P xs → All P ys → All P (xs ++ ys)
  append-All [] ys h k = k
  append-All (x ∷ xs) ys h k = (h.0, append-All xs ys h.1 k)

  pub map-All :
      (f : Item → Item) (xs : List Item)
      → ((i : Item) → P i → P (f i))
      → All P xs
      → All P (map f xs)
  map-All f [] keep h = tt
  map-All f (x ∷ xs) keep h = (keep x h.0, map-All f xs keep h.1)

  pub found_lem :
      (id : String) (xs : List Item) (x : Item) → All P xs → find_item id xs ≡ some x → P x
  found_lem id [] x h e = ground arith
  found_lem id (y ∷ xs) x h e =
      ground (arith, λ (f : find_item id xs ≡ some x). found_lem id xs x h.1 f, h.0)

  pub new_items-All :
      (ids : ℕ → String) (id : String) (order : ℕ) (boxes : List (Option String)) (now : ℕ)
      → ((item id : String) (order : ℕ) (box : Option String)
          → P (build_item item id order now box))
      → All P (new_items ids id order boxes now)
  unfolding new_items
  new_items-All ids id order [] now h = tt
  new_items-All ids id order (box ∷ boxes) now h =
      (h _ _ _ _, new_items-All ids id (order + 1) boxes now h)
