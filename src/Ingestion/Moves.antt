-- ===== src/Ingestion/Moves.antt =====
-- Every write leaves the batch as it is or makes one of the next revision, and a guarded write from
-- a batch of another revision leaves it as it is.
use learn_loop.Prelude.{Option, none, some, List, ◌∷◌, ◌≡◌, ◌⊎◌, refl, arith, inl}
use learn_loop.Ingestion.Documents.{Batch, Slot}
use learn_loop.Ingestion.Writes.{Moves}
use learn_loop.Ingestion.History.{
  Write, apply, Guarded, apply_guarded, Loose, apply_loose, Step, act, version, from_seen,
}

pub apply-Moves : (w : Write) (b : Batch) → Moves b (apply w (some b)).0
unfolding apply
apply-Moves w b = ground arith

pub apply_guarded-Moves : (g : Guarded) (seen b : Batch) → Moves b (apply_guarded g seen (some b))
unfolding apply_guarded
apply_guarded-Moves g seen b = ground arith

pub apply_loose-Moves : (l : Loose) (seen b : Batch) → Moves b (apply_loose l seen (some b))
unfolding apply_loose
apply_loose-Moves l seen b = ground arith

pub apply_guarded-cases :
    (g : Guarded) (seen b : Batch)
    → (seen.revision ≡ b.revision) ⊎ (apply_guarded g seen (some b) ≡ some b)
unfolding apply_guarded
apply_guarded-cases g seen b = ground arith

-- What holds without a read and for each batch that may have been read holds of the write.
pub from_seen_lem :
    (P : Slot → Type 0) (write : Batch → Slot → Slot) (seen : Option Batch) {slot : Slot}
    → P slot
    → ((b : Batch) → seen ≡ some b → P (write b slot))
    → P (from_seen write seen slot)
from_seen_lem P write none h k = h
from_seen_lem P write (some b) h k = k b refl

pub act-Moves : (s : Step) (b : Batch) (older : List Batch) → Moves b (act s b older)
unfolding act
act-Moves (Step.blind w) b older = apply-Moves w b
act-Moves (Step.guarded g k) b older =
    from_seen_lem (Moves b) (apply_guarded g) (version k (b ∷ older)) (inl refl)
      (λ seen e. apply_guarded-Moves g seen b)
act-Moves (Step.loose l k) b older =
    from_seen_lem (Moves b) (apply_loose l) (version k (b ∷ older)) (inl refl)
      (λ seen e. apply_loose-Moves l seen b)
