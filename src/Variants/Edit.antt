-- ===== src/Variants/Edit.antt =====
-- `edit_problem_variant_candidate`. The loop of at most five attempts never comes to a second one:
-- a write that matches returns, and the classification of a write that does not always raises.
-- So one attempt is the whole function, over the documents that its three reads see: others may
-- write between them.
use learn_loop.Prelude.{
  ℕ, ◌+◌, Option, none, some, String, List, Bool, true, false, ◌&&◌, ◌||◌, is_some, ◌==◌,
  if◌then◌else◌, update_one, Result, ok, err,
}
use learn_loop.States.{VariationStatus}
use learn_loop.Variants.Drafts.{Content, Candidate, no_content, has_semantic_change}
use learn_loop.Variants.Sessions.{Session, Slot, Variation, is_live, has_status}
use learn_loop.Variants.Repository.{VariantError, variation_not_found, classify_session_conflict}

-- `candidate_update`: for each key that the edit may send, its value if it was sent.
pub record CandidateUpdate : Type 0 where
  pub text : Option (Option String)
  pub problem_type : Option (Option String)
  pub graph_dsl : Option (Option String)
  pub correct_answer : Option (Option String)

abbrev pub sent_or : Option (Option String) → Option String → Option String
sent_or none old = old
sent_or (some v) old = v

-- The base of the merge: the stored candidate, or the immutable fields of a hand-built one.
abbrev pub base_candidate : Variation → Candidate
base_candidate v = elim v.candidate [
  | some c ↦ c
  | none ↦ record {
    content = record no_content {
      subject = elim v.original.subject [ none ↦ some "" | some s ↦ some s ];
    };
    generator = some (record { provider = "user"; model = "manual-edit" });
  }
]

-- `{**base, **candidate_update}`
abbrev pub merge : Candidate → CandidateUpdate → Candidate
merge base u = record base {
  content = record {
    text = sent_or u.text base.text;
    problem_type = sent_or u.problem_type base.problem_type;
    graph_dsl = sent_or u.graph_dsl base.graph_dsl;
    correct_answer = sent_or u.correct_answer base.correct_answer;
    subject = base.subject;
  };
}

abbrev pub candidate_content : Option Candidate → Content
candidate_content none = no_content
candidate_content (some c) = c.content

abbrev pub is_editable : Session → Bool
is_editable s =
    has_status VariationStatus.ready s
    || has_status VariationStatus.needs_validation s
    || has_status VariationStatus.failed s

abbrev sent_tags : Option (List String) → List String → List String
sent_tags none old = old
sent_tags (some new) old = new

-- The `$set` and `$inc` of the edit, `changed` telling a semantic change from another.
unfoldable pub apply_edit : Candidate → Bool → Option (List String) → ℕ → Session → Session
apply_edit merged changed tags now s = record s {
  variation = record (s.variation) {
    candidate = some merged;
    status = if changed then VariationStatus.needs_validation else s.status;
    validated_revision = if changed then none else s.validated_revision;
    attestation = if changed then none else s.attestation;
  };
  content_revision = if changed then s.content_revision + 1 else s.content_revision;
  tags = sent_tags tags s.tags;
  updated_at = now;
}

-- The guarded write, for what was computed from the document read before.
unfoldable pub write_edit :
    CandidateUpdate → Option (List String) → ℕ → ℕ → Session → Slot → Slot × Bool
unfolding apply_edit
write_edit u tags expected_revision now seen =
    let merged = merge (base_candidate seen.variation) u in
    let changed = has_semantic_change (candidate_content seen.candidate) merged.content in
    update_one (λ s. s.content_revision == expected_revision && is_live s && is_editable s)
      (apply_edit merged changed tags now)

abbrev outcome : Bool → Slot → ℕ → Result VariantError (Unit {0})
outcome true fresh expected_revision = ok tt
outcome false fresh expected_revision = err (classify_session_conflict fresh expected_revision)

abbrev edit_seen :
    CandidateUpdate
    → Option (List String)
    → ℕ
    → ℕ
    → Session
    → Slot
    → (Slot → Slot)
    → Result VariantError (Unit {0}) × Slot
edit_seen u tags expected_revision now seen current later =
    let (written, matched) = write_edit u tags expected_revision now seen current in
    (outcome matched (later written) expected_revision, later written)

-- `seen` is what the first read found, `current` the document at the write, and `later` what others
-- do to it before the last read.
unfoldable pub edit_candidate :
    CandidateUpdate
    → Option (List String)
    → ℕ
    → ℕ
    → Slot
    → Slot
    → (Slot → Slot)
    → Result VariantError (Unit {0}) × Slot
unfolding write_edit
edit_candidate u tags expected_revision now none current later = (err variation_not_found, current)
edit_candidate u tags expected_revision now (some seen) current later =
    if is_some seen.discarded_at
    then (err variation_not_found, current)
    else edit_seen u tags expected_revision now seen current later
