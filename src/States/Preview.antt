-- ===== src/States/Preview.antt =====
-- `recover_stale_preview` of backend/app/domain/state.py: an extraction that never came back.
-- Times are counts of microseconds; `window` is `extracting_window_seconds` in that unit.
use learn_loop.Prelude.{
  is_some, Option-cases, inl, inr, ℕ, ◌+◌, ◌<◌, ◌≡◌, Option, none, some, String, Bool, true, false,
  if◌then◌else◌, leb, arith, ok, ◌==◌,
}
use learn_loop.States.{PreviewStatus, preview_code, transition_preview_state}

pub record Extraction : Type 0 where
  pub request_started_at : Option ℕ
  pub request_finished_at : Option ℕ
  pub success : Option Bool
  pub raw_text : Option String
  pub failure_code : Option String
  pub failure_message : Option String

pub record Preview : Type 0 where
  pub status : PreviewStatus
  pub extraction : Extraction
  pub created_at : Option ℕ
  pub updated_at : Option ℕ

-- Python's `a or b` on values that are a time or `None`.
abbrev pub or_else : Option ℕ → Option ℕ → Option ℕ
or_else none b = b
or_else (some a) b = some a

-- The time from which the extracting window runs.
unfoldable pub started_at : Preview → Option ℕ
started_at p = or_else p.extraction.request_started_at (or_else p.updated_at p.created_at)

abbrev pub failure_code_stale_preview : String
failure_code_stale_preview = "vlm-stale-preview-timeout"

abbrev pub stale_message : String
stale_message = "Preview extraction exceeded the configured extracting window."

-- `current_time - started_at <= window` is written without the difference, which may be negative.
recover_from : Option ℕ → Preview → ℕ → ℕ → Option Preview
recover_from none p now window = none
recover_from (some t) p now window =
    if leb now (t + window)
    then none
    else some (record p {
      status = PreviewStatus.vlm_failed;
      extraction = record (p.extraction) {
        success = some false;
        request_finished_at = some now;
        failure_code = some failure_code_stale_preview;
        failure_message = some stale_message;
      };
      updated_at = some now;
    })

unfoldable pub recover_stale_preview : Preview → ℕ → ℕ → Option Preview
unfolding recover_from started_at
recover_stale_preview p now window =
    if preview_code p.status == preview_code PreviewStatus.extracting
    then recover_from (started_at p) p now window
    else none

overdue :
    (p q : Preview) (now window : ℕ)
    → recover_stale_preview p now window ≡ some q
    → (p.status ≡ PreviewStatus.extracting)
      × ((t : ℕ) × (started_at p ≡ some t) × (t + window < now))
unfolding recover_stale_preview
overdue p q now window h = (
  ground arith,
  elim (Option-cases (started_at p)) [
    | inl e ↦ absurd (ground arith)
    | inr (t, e) ↦ (t, e, ground arith)
  ],
)

-- What is recovered was extracting, and started more than the window before now. It fails by a legal
-- transition, keeps the extracted text and the start time, records the failure, and is not
-- recovered again at any later time.
pub recover_lem :
    (p q : Preview) (now later window : ℕ)
    → recover_stale_preview p now window ≡ some q
    → (p.status ≡ PreviewStatus.extracting)
      × ((t : ℕ) × (started_at p ≡ some t) × (t + window < now))
      × (transition_preview_state p.status q.status ≡ ok PreviewStatus.vlm_failed)
      × (q.extraction.raw_text ≡ p.extraction.raw_text)
      × (q.extraction.request_started_at ≡ p.extraction.request_started_at)
      × (q.extraction.success ≡ some false)
      × (recover_stale_preview q later window ≡ none)
unfolding recover_stale_preview transition_preview_state
recover_lem p q now later window h = (
  (overdue p q now window h).0,
  (overdue p q now window h).1,
  ground arith,
  ground arith,
  ground arith,
  ground arith,
  ground arith,
)

-- An extraction that started more than the window before now is always recovered.
pub recover_overdue :
    (p : Preview) (t now window : ℕ)
    → p.status ≡ PreviewStatus.extracting
    → started_at p ≡ some t
    → t + window < now
    → is_some (recover_stale_preview p now window) ≡ true
unfolding recover_stale_preview
recover_overdue p t now window e f h = ground arith
