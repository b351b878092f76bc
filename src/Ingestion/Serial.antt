-- ===== src/Ingestion/Serial.antt =====
-- Optimistic concurrency of a batch: whatever its callers read and whenever, the guarded writes act
-- one after the other on the newest document, or not at all.
use learn_loop.Prelude.{
  ℕ, suc, ◌<◌, Option, none, some, List, [], ◌∷◌, ◌≡◌, refl, arith, All, sym, ◌∙◌, ap,
}
use learn_loop.Ingestion.Documents.{Batch, Slot}
use learn_loop.Ingestion.Writes.{Moves}
use learn_loop.Ingestion.History.{
  Write, apply, Guarded, apply_guarded, Loose, apply_loose, Step, act, step, push, run, version,
  from_seen,
}
use learn_loop.Ingestion.Moves.{act-Moves, apply_guarded-cases, from_seen_lem}

-- The revisions of the versions fall from the newest on.
abbrev pub Falls : List Batch → Type 0
Falls [] = Unit
Falls (b ∷ older) = All (λ (v : Batch). v.revision < b.revision) older

All-weaken :
    (b c : Batch) (older : List Batch)
    → b.revision < c.revision
    → All (λ (v : Batch). v.revision < b.revision) older
    → All (λ (v : Batch). v.revision < c.revision) older
All-weaken b c [] h all = tt
All-weaken b c (v ∷ older) h all = (ground (arith, all.0), All-weaken b c older h all.1)

push-Falls :
    (slot : Slot) (b : Batch) (older : List Batch)
    → Moves b slot
    → Falls (b ∷ older)
    → Falls (push slot b older)
push-Falls none b older m f = absurd m
push-Falls (some c) b older m f =
    ground (arith, λ (h : b.revision < c.revision). All-weaken b c older h f)

pub step-Falls : (s : Step) (h : List Batch) → Falls h → Falls (step s h)
unfolding step
step-Falls s [] f = tt
step-Falls s (b ∷ older) f = push-Falls (act s b older) b older (act-Moves s b older) f

older_lem :
    (b seen : Batch) (older : List Batch) (k : ℕ)
    → All (λ (v : Batch). v.revision < b.revision) older
    → version k older ≡ some seen
    → seen.revision < b.revision
older_lem b seen [] k all e = ground arith
older_lem b seen (v ∷ older) ℕ.zero all e = ground (arith, all.0)
older_lem b seen (v ∷ older) (suc k) all e = older_lem b seen older k all.1 e

pub stale_lost :
    (g : Guarded) (k : ℕ) (b : Batch) (older : List Batch)
    → Falls (b ∷ older)
    → act (Step.guarded g (suc k)) b older ≡ some b
unfolding act
stale_lost g k b older f =
    from_seen_lem (λ slot. slot ≡ some b) (apply_guarded g) (version k older) refl
      (λ seen e. ground (arith, older_lem b seen older k f e, apply_guarded-cases g seen b))

-- The specification: each operation acts at once, on the document that it finds. Only those without
-- a guard still act on what was seen.
pub data Atomic : Type 0 where
  blind : Write → Atomic
  guarded : Guarded → Atomic
  loose : Loose → Batch → Atomic

unfoldable pub perform : Atomic → Slot → Slot
unfolding apply apply_guarded apply_loose
perform a none = none
perform (Atomic.blind w) (some b) = (apply w (some b)).0
perform (Atomic.guarded g) (some b) = apply_guarded g b (some b)
perform (Atomic.loose l seen) (some b) = apply_loose l seen (some b)

unfoldable pub perform_all : List Atomic → Slot → Slot
unfolding perform
perform_all [] slot = slot
perform_all (a ∷ more) slot = perform_all more (perform a slot)

abbrev loose_seen : Loose → Option Batch → List Atomic → List Atomic
loose_seen l none more = more
loose_seen l (some seen) more = Atomic.loose l seen ∷ more

-- The serial order of the steps of a history: a guarded write whose read is stale has no place in it.
unfoldable pub serial : List Step → List Batch → List Atomic
unfolding step
serial [] h = []
serial (Step.blind w ∷ steps) h = Atomic.blind w ∷ serial steps (step (Step.blind w) h)
serial (Step.guarded g ℕ.zero ∷ steps) h =
    Atomic.guarded g ∷ serial steps (step (Step.guarded g ℕ.zero) h)
serial (Step.guarded g (suc k) ∷ steps) h = serial steps (step (Step.guarded g (suc k)) h)
serial (Step.loose l k ∷ steps) h =
    loose_seen l (version k h) (serial steps (step (Step.loose l k) h))

push_newest :
    (slot : Slot) (b : Batch) (older : List Batch)
    → Moves b slot
    → version 0 (push slot b older) ≡ slot
push_newest none b older m = absurd m
push_newest (some c) b older m = ground arith

pub newest-step :
    (s : Step) (b : Batch) (older : List Batch) → version 0 (step s (b ∷ older)) ≡ act s b older
unfolding step
newest-step s b older = push_newest (act s b older) b older (act-Moves s b older)

perform_all-none : (ops : List Atomic) → perform_all ops none ≡ none
unfolding perform_all
perform_all-none [] = refl
perform_all-none (a ∷ ops) = perform_all-none ops

loose_performs :
    (l : Loose) (seen : Option Batch) (more : List Atomic) (b : Batch)
    → perform_all (loose_seen l seen more) (some b)
      ≡ perform_all more (from_seen (apply_loose l) seen (some b))
unfolding perform_all
loose_performs l none more b = refl
loose_performs l (some seen) more b = refl

-- One step of a history is the operation that it adds to the serial order, or nothing.
serial-step :
    (s : Step) (steps : List Step) (b : Batch) (older : List Batch)
    → Falls (b ∷ older)
    → perform_all (serial (s ∷ steps) (b ∷ older)) (some b)
      ≡ perform_all (serial steps (step s (b ∷ older))) (act s b older)
unfolding perform_all serial act
serial-step (Step.blind w) steps b older f = refl
serial-step (Step.guarded g ℕ.zero) steps b older f = refl
serial-step (Step.guarded g (suc k)) steps b older f = rw (stale_lost g k b older f) refl
serial-step (Step.loose l k) steps b older f = loose_performs l (version k (b ∷ older)) _ b

serial_lem :
    (steps : List Step) (h : List Batch)
    → Falls h
    → version 0 (run steps h) ≡ perform_all (serial steps h) (version 0 h)
unfolding run serial perform_all
serial_lem [] h f = refl
serial_lem (s ∷ steps) [] f =
    serial_lem steps [] tt
    ∙ perform_all-none (serial steps [])
    ∙ sym (perform_all-none (serial (s ∷ steps) []))
serial_lem (s ∷ steps) (b ∷ older) f =
    serial_lem steps (step s (b ∷ older)) (step-Falls s (b ∷ older) f)
    ∙ ap (perform_all (serial steps (step s (b ∷ older)))) (newest-step s b older)
    ∙ sym (serial-step s steps b older f)

-- The guarded writes of a batch are serializable: after any interleaving of writes, whatever batch
-- each caller had read and however long before, the document is the one that the atomic operations
-- make of the first document one after the other, in the order of the writes, where a guarded write
-- from a stale read has no effect and each other one reads the document that it writes.
pub run-serial :
    (steps : List Step) (b : Batch)
    → version 0 (run steps (b ∷ [])) ≡ perform_all (serial steps (b ∷ [])) (some b)
run-serial steps b = serial_lem steps (b ∷ []) tt
