-- ===== src/Variants/Sessions.antt =====
-- The session document. A slot holds the document that `_id`, `problemId` and `userId` address.
use learn_loop.Prelude.{ℕ, Option, none, some, String, List, Bool, true, ◌&&◌, is_none, leb, ◌==◌}
use learn_loop.States.{VariationStatus, variation_code}
use learn_loop.Assessment.{Validation}
use learn_loop.Variants.Drafts.{Content, Candidate}

pub record Reservation : Type 0 where
  pub token : String
  pub expires_at : ℕ

pub record Attestation : Type 0 where
  pub revision : ℕ
  pub at : ℕ

pub record Variation : Type 0 where
  pub status : VariationStatus
  pub generation_count : ℕ
  pub original : Content
  pub candidate : Option Candidate
  pub validation : Option Validation
  pub validated_revision : Option ℕ
  pub attestation : Option Attestation
  pub submit_reservation : Option Reservation
  pub queued_at : ℕ

-- The `submit` sub-document; its other fields are constants of the only write.
pub record Submission : Type 0 where
  pub submitted_problem_id : String
  pub success : Bool

pub record Session : Type 0 where
  pub problem_id : String
  pub user_id : ℕ
  pub mode : String
  pub content_revision : ℕ
  pub tags : List String
  pub variation : Variation
  pub open variation use *
  pub submit : Option Submission
  pub discarded_at : Option ℕ
  pub created_at : ℕ
  pub updated_at : ℕ

abbrev pub Slot : Type 0
Slot = Option Session

-- `_LIVE_PREDICATE`
abbrev pub is_live : Session → Bool
is_live s = is_none s.submit && is_none s.discarded_at

abbrev pub has_status : VariationStatus → Session → Bool
has_status v s = variation_code s.status == variation_code v

-- No reservation, or one that has expired.
abbrev pub is_reservable : Option Reservation → ℕ → Bool
is_reservable none now = true
is_reservable (some r) now = leb r.expires_at now
