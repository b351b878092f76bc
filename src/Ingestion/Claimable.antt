-- ===== src/Ingestion/Claimable.antt =====
-- The worker's choice of an item agrees with the filter of the claim.
use learn_loop.Prelude.{ℕ, some, String, List, ◌∷◌, ◌++◌, true, ◌&&◌, ◌≡◌, arith, sym}
use learn_loop.States.{is_variation_in_flight}
use learn_loop.Ingestion.Documents.{Batch, Item}
use learn_loop.Ingestion.Items.{is_item}
use learn_loop.Ingestion.Submits.{is_live_batch}
use learn_loop.Ingestion.Variations.{in_variant_mode, is_actionable}
use learn_loop.Ingestion.Work.{claim_variation_work, write_claim, claim_seen, is_workable}
use learn_loop.Ingestion.Sound.{IsSound}
use learn_loop.Ingestion.Only.{Others, holding, any-Only, find_item-Only}
use learn_loop.Ingestion.VariationWorker.{is_variation_claimable}

workable-eq :
    (i : Item) (now : ℕ)
    → IsSound i
    → is_item i.item_id i ≡ true
    → (is_variation_in_flight i.variation.status && is_workable i.item_id i now i)
      ≡ (is_actionable i && is_variation_claimable i now)
unfolding is_variation_in_flight is_variation_claimable
workable-eq i now sound named = ground arith

claim_seen-eq :
    (b : Batch) (i : Item) (pre post : List Item) (token : String) (timeout now : ℕ)
    → Others i.item_id pre
    → Others i.item_id post
    → (claim_seen i.item_id token timeout now (some i) (some (holding b (pre ++ (i ∷ post))))).1 ≡ (
        is_live_batch now b
        && in_variant_mode b
        && (is_variation_in_flight i.variation.status && is_workable i.item_id i now i))
unfolding claim_variation_work write_claim
claim_seen-eq b i pre post token timeout now before after = ground (
  arith,
  any-Only i.item_id (is_workable i.item_id i now) (λ j e. ground arith) i pre post before after,
)

-- The worker tries exactly the items that it can get: in a batch in which one item has the id and is
-- sound, a claim from a fresh read lands if and only if the batch is live and one of variants, the
-- item is neither deleted nor submitted, and the worker's test of the item holds.
pub claim-eq-is_variation_claimable :
    (b : Batch) (i : Item) (pre post : List Item) (token : String) (timeout now : ℕ)
    → Others i.item_id pre
    → Others i.item_id post
    → is_item i.item_id i ≡ true
    → IsSound i
    → let fresh = holding b (pre ++ (i ∷ post)) in
      (claim_variation_work i.item_id token timeout now fresh (some fresh)).1 ≡ (
        is_live_batch now b
        && in_variant_mode b
        && (is_actionable i && is_variation_claimable i now))
unfolding claim_variation_work
claim-eq-is_variation_claimable b i pre post token timeout now before after named sound =
    rw (find_item-Only i.item_id i pre post before named) rw (sym (workable-eq i now sound named))
      (claim_seen-eq b i pre post token timeout now before after)
