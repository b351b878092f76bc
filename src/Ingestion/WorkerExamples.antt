-- ===== src/Ingestion/WorkerExamples.antt =====
-- The theorems on the workers at a concrete batch.
use learn_loop.Prelude.{
  Bool, false, leb, ltb, ok, err, inl, ℕ, ◌+◌, ◌≡◌, refl, some, none, [], ◌∷◌, List, true, ◌&&◌,
  arith,
}
use learn_loop.States.{ItemState, VariationStatus}
use learn_loop.Variants.Drafts.{Content, no_content, problem_content_from_snapshot}
use learn_loop.Ingestion.Documents.{
  Batch, Item, IngestionMode, build_batch, build_image, build_item,
}
use learn_loop.Ingestion.Variations.{in_variant_mode, is_actionable}
use learn_loop.Ingestion.Only.{holding}
use learn_loop.Ingestion.VariationWorker.{
  Replies, returned, failed, process_variation, is_variation_claimable,
}
use learn_loop.Ingestion.Landing.{process_variation-lands}
use learn_loop.Ingestion.Claimable.{claim-eq-is_variation_claimable}
use learn_loop.Ingestion.Submits.{is_live_batch}
use learn_loop.Ingestion.Work.{claim_variation_work}
use learn_loop.Ingestion.ExtractionWorker.{Outside, CallError, process_item}
use learn_loop.Ingestion.Extraction.{process_item-lands}
use learn_loop.Selection.Score.{Floats}
use learn_loop.Ingestion.Boxes.{RawBox, floats, validate_boxes}
use learn_loop.Ingestion.Inside.{Ordered, Checked, validate_boxes-Checked}

abbrev question : Content
question = record no_content {
  text = some "What is 2 + 2?";
  problem_type = some "short-answer";
  correct_answer = some "4";
}

abbrev empty : Batch
empty = build_batch 1000 (some IngestionMode.data_only) 0

-- An item whose generation was claimed again, after the lease of `t` had run out.
abbrev reclaimed : Item
reclaimed = record (build_item "i" "p" 0 2 none) {
  status = ItemState.ready;
  content_revision = 1;
  variation = record ((build_item "i" "p" 0 2 none).variation) {
    status = VariationStatus.generating;
    original = some question;
    claim_token = some "u";
    lease_until = some 200;
  };
}

abbrev busy : Batch
busy = record empty { items = reclaimed ∷ [] }

abbrev other : Item
other = build_item "j" "p" 1 2 none

-- A worker with an instant clock whom no one disturbs. The assessment raises.
abbrev silent : Replies
silent = record {
  preflight = none;
  generated = returned (record { content = question; generator = none });
  malformed = λ c. none;
  assessed = λ c. failed (record { verdict = some "fail"; failures = [] });
}

lands_example :
    (process_variation (λ n slot. slot) (λ n. 150) 60 silent reclaimed (some busy)).1 ≡ true
unfolding build_item build_batch problem_content_from_snapshot
lands_example =
    process_variation-lands (λ n slot. slot) (λ n. 150) 60 silent reclaimed "u" question _
      (some busy) refl refl refl refl (ground arith) (λ n slot h. h) tt (λ c. tt) (inl (refl, refl))

-- After the lease has run out.
claim_example :
    (claim_variation_work "i" "v" 60 300
      (holding empty (reclaimed ∷ other ∷ []))
      (some (holding empty (reclaimed ∷ other ∷ [])))).1
    ≡ (is_live_batch 300 empty
        && in_variant_mode empty
        && (is_actionable reclaimed && is_variation_claimable reclaimed 300))
unfolding build_item
claim_example =
    claim-eq-is_variation_claimable empty reclaimed [] (other ∷ []) "v" 60 300 tt (refl, tt) refl
      (ground arith)

-- A worker whose model does not answer.
abbrev mute : Outside
mute = record {
  source_bytes = ok "bytes";
  crop = λ bytes box. ok "crop";
  stored = true;
  extract = λ subject. err (CallError.provider "timeout" "no answer" none);
}

abbrev claimed_item : Item
claimed_item = record (build_item "i" "p" 0 2 (some "box")) {
  status = ItemState.extracting;
  lease_until = some 90;
}

extraction_example :
    (process_item
      (λ t. t)
      (λ g. (g, none))
      mute
      claimed_item
      30
      40
      (record empty { images = build_image "p" "s3://p" 0 1 ∷ [] })
      (some (record empty { items = claimed_item ∷ [] }))).1
    ≡ true
unfolding build_item
extraction_example =
    process_item-lands (λ t. t) (λ g. (g, none)) mute claimed_item 30 40
      (some (record empty { items = claimed_item ∷ [] })) refl refl
      (record empty { images = build_image "p" "s3://p" 0 1 ∷ [] })

-- Whole numbers for the floats, and an image of ten by ten.
abbrev whole : Floats ℕ
whole = record {
  of_nat = λ n. n;
  add = λ a b. a + b;
  mul = λ a b. a;
  div = λ a b. a;
  neg = λ a. 0;
  sqrt = λ a. a;
  max = λ a b. a;
  le = leb;
  lt = ltb;
}

abbrev payloads : List (RawBox ℕ)
payloads =
    record { box_id = some "a"; coordinates = floats 0 0 5 5 }
    ∷ record { box_id = none; coordinates = floats 8 0 5 5 }
    ∷ []

abbrev no_nan : ℕ → Bool
no_nan n = false

whole-Ordered : Ordered whole no_nan
whole-Ordered = record {
  zero_number = refl;
  compared = λ a b n m. ground arith;
  sum_number = λ a b n m l k. refl;
}

boxes_example :
    Checked whole no_nan
      (λ n. "2")
      (some 10)
      (some 10)
      0
      payloads
      (validate_boxes whole (λ n. "2") (some 10) (some 10) payloads)
boxes_example =
    validate_boxes-Checked whole no_nan (λ n. "2") (some 10) (some 10) whole-Ordered refl refl
      payloads refl
