-- ===== src/Ingestion/AdmissionExamples.antt =====
-- An admission of a concrete item that its user attested.
use learn_loop.Prelude.{
  not, String, ◌≡◌, refl, true, false, some, none, [], ok, Bool, Result, arith,
}
use learn_loop.States.{ItemState, VariationStatus}
use learn_loop.Variants.Drafts.{Content, no_content}
use learn_loop.Ingestion.Documents.{Batch, Item, IngestionMode, build_batch, build_item}
use learn_loop.Ingestion.Items.{is_item}
use learn_loop.Ingestion.Sound.{IsSound}
use learn_loop.Ingestion.Admission.{AdmissionError, admit_variant_item, is_attested, is_validated}
use learn_loop.Ingestion.AdmittedOnce.{admit_variant_item-once, start, admitted}

abbrev question : Content
question = record no_content { text = some "What is 2 + 2?"; correct_answer = some "4" }

abbrev waiting : Batch
waiting = build_batch 1000 (some IngestionMode.data_only) 0

abbrev new_item : Item
new_item = build_item "i" "p" 0 2 none

abbrev attested_item : Item
attested_item = record new_item {
  status = ItemState.ready;
  content_revision = 1;
  variation = record (new_item.variation) {
    status = VariationStatus.ready;
    original = some question;
    candidate = some (record { content = question; generator = none });
    validation = some (record { verdict = some "fail"; failures = [] });
    attestation = some (record { revision = 1; at = 5 });
  };
}

attested_item-IsSound : IsSound attested_item
unfolding build_item
attested_item-IsSound = ground arith

-- A problem says whether its user attested it.
abbrev built : Item → Bool → Result AdmissionError (String × Bool)
built i attested = ok ("problem", attested)

attested_item_named : is_item attested_item.item_id attested_item ≡ true
unfolding build_item
attested_item_named = refl

admission_example :
    (admit_variant_item built "i" "q" 50
        (start built waiting attested_item [] [] [] [] tt tt attested_item_named)
      ≡ (
        ok (record { problem_id = "q"; already_submitted = false }),
        admitted built waiting attested_item [] [] [] [] tt tt attested_item_named "q" 50
            ("problem", true),
      ))
    × (is_attested attested_item ≡ not (is_validated attested_item))
    × (admit_variant_item built "i" "r" 60 (
          admitted built waiting attested_item [] [] [] [] tt tt attested_item_named "q" 50
            ("problem", true))
        ≡ (
          ok (record { problem_id = "q"; already_submitted = true }),
          admitted built waiting attested_item [] [] [] [] tt tt attested_item_named "q" 50
              ("problem", true),
        ))
unfolding build_item build_batch learn_loop.Ingestion.Admission.item_guards
admission_example =
    admit_variant_item-once built waiting attested_item [] [] [] [] tt tt attested_item_named "q"
      "r" 50 60 ("problem", true) attested_item-IsSound refl refl refl refl refl
