-- ===== src/Ingestion/AdmittedOnce.antt =====
-- An admission takes effect once, and on an approval of the current revision.
use learn_loop.Prelude.{
  ℕ, ◌+◌, none, some, String, List, ◌∷◌, ◌++◌, Bool, true, false, ◌&&◌, not, is_truthy, ◌≡◌, ◌⊎◌,
  refl, arith, leb, Result, ok, err,
}
use learn_loop.States.{BatchState, ItemState}
use learn_loop.Ingestion.Documents.{Batch, Item, item_in}
use learn_loop.Ingestion.Items.{is_item}
use learn_loop.Ingestion.Submits.{batch_in, record_variant_submission}
use learn_loop.Ingestion.Sound.{IsSound}
use learn_loop.Ingestion.Only.{Others, holding, find_item-Only, write_item-Only}
use learn_loop.Ingestion.Admission.{
  AdmissionError, is_attested, is_validated, item_guards, check_admission_guards, Database,
  admit_variant_item,
}

-- The item as its submission is recorded.
abbrev pub submitted_item : String → ℕ → Item → Item
submitted_item problem now i = record i {
  status = ItemState.submitted;
  submit = record {
    submitted_problem_id = some problem;
    success = some true;
    failure_code = none;
    failure_message = none;
  };
  variation = record (i.variation) { submit_reservation = none };
  updated_at = now;
}

abbrev pub after_submission : Batch → List Item → Item → List Item → String → ℕ → Batch
after_submission b pre i post problem now = record b {
  items = pre ++ (submitted_item problem now i ∷ post);
  revision = b.revision + 1;
  updated_at = now;
}

recorded-Only :
    (b : Batch) (i : Item) (pre post : List Item) (fresh : String) (now : ℕ)
    → Others i.item_id pre
    → Others i.item_id post
    → is_item i.item_id i ≡ true
    → batch_in BatchState.active b ≡ true
    → item_in ItemState.ready i ≡ true
    → record_variant_submission i.item_id fresh now (some (holding b (pre ++ (i ∷ post))))
      ≡ (some (after_submission b pre i post fresh now), true)
unfolding record_variant_submission
recorded-Only b i pre post fresh now before after named active ready = ground (
  arith,
  active,
  ready,
  named,
  write_item-Only i.item_id (batch_in BatchState.active)
      (λ (j : Item). is_item i.item_id j && item_in ItemState.ready j)
      (λ (j : Item). record j {
        status = ItemState.submitted;
        submit = record {
          submitted_problem_id = some fresh;
          success = some true;
          failure_code = none;
          failure_message = none;
        };
        variation = record (j.variation) { submit_reservation = none };
      })
      now b i pre post (λ j e. ground arith) before after,
)

-- What the guards of a sound item let through.
guards_lem :
    (b : Batch) (i : Item)
    → IsSound i
    → item_guards b i ≡ ok (i, none)
    → (batch_in BatchState.active b ≡ true)
      × (item_in ItemState.ready i ≡ true)
      × (is_attested i ≡ not (is_validated i))
unfolding item_guards
guards_lem b i sound e = ground arith

guards-cases :
    (b : Batch) (i : Item)
    → (item_guards b i ≡ ok (i, none)) ⊎ ((e : AdmissionError) × (item_guards b i ≡ err e))
unfolding item_guards
guards-cases b i = ground arith

module _ {P : Type 0} (document : Item → Bool → Result AdmissionError P) (b : Batch) (i : Item)
    (pre post : List Item) (problems : List (String × P)) (tasks : List String)
    (before : Others i.item_id pre) (after : Others i.item_id post)
    (named : is_item i.item_id i ≡ true) where
  abbrev pub start : Database P
  start = record {
    batch = some (holding b (pre ++ (i ∷ post)));
    problems = problems;
    tasks = tasks;
  }

  -- The database once the problem was admitted.
  abbrev pub admitted : String → ℕ → P → Database P
  admitted fresh now p = record {
    batch = some (after_submission b pre i post fresh now);
    problems = (fresh, p) ∷ problems;
    tasks = fresh ∷ tasks;
  }

  again :
      (fresh other : String) (now later : ℕ) (p : P)
      → is_truthy fresh ≡ true
      → leb b.expires_at later ≡ false
      → admit_variant_item document i.item_id other later (admitted fresh now p)
        ≡ (ok (record { problem_id = fresh; already_submitted = true }), admitted fresh now p)
  unfolding admit_variant_item check_admission_guards
  again fresh other now later p t l =
      rw l (
        rw (find_item-Only i.item_id (submitted_item fresh now i) pre post before named)
          (rw t refl))

  opened :
      (fresh : String) (now : ℕ) (p : P)
      → leb b.expires_at now ≡ false
      → item_guards b i ≡ ok (i, none)
      → document i (is_attested i) ≡ ok p
      → batch_in BatchState.active b ≡ true
      → item_in ItemState.ready i ≡ true
      → admit_variant_item document i.item_id fresh now start
        ≡ (ok (record { problem_id = fresh; already_submitted = false }), admitted fresh now p)
  unfolding admit_variant_item check_admission_guards
  opened fresh now p l g d active ready =
      let waiting : item_in ItemState.submitted i ≡ false = ground (arith, ready) in
      rw l (
        rw (find_item-Only i.item_id i pre post before named) (
          rw waiting (
            rw g (
              rw d
                (rw (recorded-Only b i pre post fresh now before after named active ready) refl)))))

  -- An item of a sound batch that passes the guards, before the batch expires, and whose problem can
  -- be built: the admission adds that one problem and its one solution task and submits the item;
  -- the problem is attested by its user exactly if the revision was not validated; and a later
  -- admission of the item, before the batch expires, changes nothing and answers the same problem.
  pub admit_variant_item-once :
      (fresh other : String) (now later : ℕ) (p : P)
      → IsSound i
      → is_truthy fresh ≡ true
      → leb b.expires_at now ≡ false
      → leb b.expires_at later ≡ false
      → item_guards b i ≡ ok (i, none)
      → document i (is_attested i) ≡ ok p
      → (admit_variant_item document i.item_id fresh now start
          ≡ (ok (record { problem_id = fresh; already_submitted = false }), admitted fresh now p))
        × (is_attested i ≡ not (is_validated i))
        × (admit_variant_item document i.item_id other later (admitted fresh now p)
            ≡ (ok (record { problem_id = fresh; already_submitted = true }), admitted fresh now p))
  admit_variant_item-once fresh other now later p sound t l l' g d =
      let (active, ready, attests) = guards_lem b i sound g in
      (opened fresh now p l g d active ready, attests, again fresh other now later p t l')
