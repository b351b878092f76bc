-- ===== src/Ingestion/Invariant.antt =====
-- The invariant of the items through any history of a batch.
use learn_loop.Prelude.{ℕ, Option, List, [], ◌∷◌, All}
use learn_loop.Ingestion.Documents.{Batch, IngestionMode, build_batch}
use learn_loop.Ingestion.History.{Loose, Step, run}
use learn_loop.Ingestion.Stable.{Claims, Stands, run-Stands}
use learn_loop.Ingestion.Sound.{IsSound, AnyToken, sound}

abbrev pub AllSound : Batch → Type 0
AllSound b = All IsSound b.items

any_token_lem : (s : Step) → Claims AnyToken s
any_token_lem (Step.loose (Loose.claim_work id token timeout now) k) = tt
any_token_lem _ = tt

any_token : (steps : List Step) → All (Claims AnyToken) steps
any_token [] = tt
any_token (s ∷ steps) = (any_token_lem s, any_token steps)

versions_lem : (h : List Batch) → Stands IsSound IsSound AnyToken sound h → All AllSound h
versions_lem [] st = tt
versions_lem (b ∷ older) st = st.2

-- In every version of a batch, after any interleaving of writes from any reads, every item is sound:
-- an approval covers the item's current revision; exactly the ready variations are approved, and by
-- one kind; a claim and its lease are held exactly while the variation is generating or validating;
-- a source is confirmed exactly where a variation was requested; and no original submission holds an
-- item whose source is confirmed.
pub run-AllSound :
    (ttl : ℕ) (mode : Option IngestionMode) (now : ℕ) (steps : List Step)
    → All AllSound (run steps (build_batch ttl mode now ∷ []))
unfolding build_batch
run-AllSound ttl mode now steps =
    versions_lem _
      (run-Stands IsSound IsSound AnyToken sound steps _ (any_token steps) (tt, tt, (tt, tt)))
