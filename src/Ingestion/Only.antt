-- ===== src/Ingestion/Only.antt =====
-- A batch in which one item has an id: what the filters and the positional changes by that id do.
use learn_loop.Prelude.{
  ℕ, ◌+◌, some, String, List, [], ◌∷◌, ◌++◌, Bool, true, false, ◌&&◌, ◌≡◌, refl, arith, any, All,
  update_first, ap, if◌then◌else◌,
}
use learn_loop.Ingestion.Documents.{Batch, Item, find_item}
use learn_loop.Ingestion.Items.{is_item}
use learn_loop.Ingestion.Writes.{write_item}

-- The items have other ids.
abbrev pub Others : String → List Item → Type 0
Others id xs = All (λ (j : Item). is_item id j ≡ false) xs

-- A filter that only items with the id pass.
abbrev pub ById : String → (Item → Bool) → Type 0
ById id matches = (j : Item) → is_item id j ≡ false → matches j ≡ false

module _ (id : String) (matches : Item → Bool) (by_id : ById id matches) where
  any-Others : (xs : List Item) → Others id xs → any matches xs ≡ false
  any-Others [] o = refl
  any-Others (x ∷ xs) o = ground (arith, by_id x o.0, any-Others xs o.1)

  pub any-Only :
      (i : Item) (pre post : List Item)
      → Others id pre
      → Others id post
      → any matches (pre ++ (i ∷ post)) ≡ matches i
  any-Only i [] post o q = ground (arith, any-Others post q)
  any-Only i (x ∷ pre) post o q = ground (arith, by_id x o.0, any-Only i pre post o.1 q)

  update_first-Only :
      (change : Item → Item) (i : Item) (pre post : List Item)
      → Others id pre
      → matches i ≡ true
      → update_first matches change (pre ++ (i ∷ post)) ≡ pre ++ (change i ∷ post)
  update_first-Only change i [] post o m = rw m refl
  update_first-Only change i (x ∷ pre) post o m =
      rw (by_id x o.0) (ap (λ ys. x ∷ ys) (update_first-Only change i pre post o.1 m))

pub find_item-Only :
    (id : String) (i : Item) (pre post : List Item)
    → Others id pre
    → is_item id i ≡ true
    → find_item id (pre ++ (i ∷ post)) ≡ some i
find_item-Only id i [] post o e = rw e refl
find_item-Only id i (x ∷ pre) post o e = ground (arith, o.0, find_item-Only id i pre post o.1 e)

-- The batch with these items.
abbrev pub holding : Batch → List Item → Batch
holding b xs = record b { items = xs }

-- A write by the id acts on the one item, or not at all.
pub write_item-Only :
    (id : String) (guard : Batch → Bool) (matches : Item → Bool) (change : Item → Item) (now : ℕ)
    (b : Batch) (i : Item) (pre post : List Item)
    → ById id matches
    → Others id pre
    → Others id post
    → write_item guard matches change now (some (holding b (pre ++ (i ∷ post)))) ≡ (
        if guard (holding b (pre ++ (i ∷ post))) && matches i
        then (
          some (record b {
            items = pre ++ (record (change i) { updated_at = now } ∷ post);
            revision = b.revision + 1;
            updated_at = now;
          }),
          true,
        )
        else (some (holding b (pre ++ (i ∷ post))), false))
write_item-Only id guard matches change now b i pre post by_id o q = ground (
  arith,
  any-Only id matches by_id i pre post o q,
  λ (m : matches i ≡ true).
      update_first-Only id matches by_id (λ j. record (change j) { updated_at = now }) i pre post o
        m,
)
