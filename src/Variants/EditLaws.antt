-- ===== src/Variants/EditLaws.antt =====
-- What an edit of a candidate does, and what it loses when a run lands under it.
use learn_loop.Prelude.{
  ok, ◌+◌, ℕ, ◌+◌, ◌≡◌, refl, Option, none, some, String, List, Bool, true, false, arith, ok, ◌&&◌,
  ◌==◌,
}
use learn_loop.States.{VariationStatus}
use learn_loop.Assessment.{Validation}
use learn_loop.Variants.Drafts.{Candidate, has_semantic_change}
use learn_loop.Variants.Sessions.{Session, is_live}
use learn_loop.Variants.Repository.{pass, save_checkpoint, save_result}
use learn_loop.Variants.Edit.{
  apply_edit, edit_candidate, CandidateUpdate, CandidateUpdate, merge, base_candidate,
  candidate_content, is_editable, edit_candidate, write_edit,
}
use learn_loop.Variants.Run.{Holds}

-- What the edit did to the session `s`, given whether it changed the meaning of the candidate.
abbrev pub Edited : Bool → Candidate → Session → Session → Type 0
Edited true merged s t =
    (t.candidate ≡ some merged)
    × (t.status ≡ VariationStatus.needs_validation)
    × (t.content_revision ≡ s.content_revision + 1)
    × (t.validated_revision ≡ none)
    × (t.attestation ≡ none)
    × (t.validation ≡ s.validation)
Edited false merged s t =
    (t.candidate ≡ some merged)
    × (t.status ≡ s.status)
    × (t.content_revision ≡ s.content_revision)
    × (t.validated_revision ≡ s.validated_revision)
    × (t.attestation ≡ s.attestation)
    × (t.validation ≡ s.validation)

Edited-apply :
    (changed : Bool) (merged : Candidate) (tags : Option (List String)) (now : ℕ) (s : Session)
    → Edited changed merged s (apply_edit merged changed tags now s)
unfolding apply_edit
Edited-apply true merged tags now s = (refl, refl, refl, refl, refl, refl)
Edited-apply false merged tags now s = (refl, refl, refl, refl, refl, refl)

Edited-write :
    (u : CandidateUpdate) (tags : Option (List String)) (r now : ℕ) (seen s : Session)
    → (s.content_revision == r && is_live s && is_editable s) ≡ true
    → ((write_edit u tags r now seen (some s)).1 ≡ true)
      × Holds
          (Edited
            (has_semantic_change
              (candidate_content seen.candidate)
              (merge (base_candidate seen.variation) u).content)
            (merge (base_candidate seen.variation) u)
            s)
          (write_edit u tags r now seen (some s)).0
unfolding write_edit
Edited-write u tags r now seen s h = ground (
  arith,
  Edited-apply
      (has_semantic_change (candidate_content seen.candidate)
        (merge (base_candidate seen.variation) u).content)
      (merge (base_candidate seen.variation) u) tags now s,
)

-- An edit at the revision that was reviewed, of a live session that is ready, failed or needs
-- validation, returns without an error, whatever document it had read before, unless that was
-- discarded: it stores the merged candidate, and a change of meaning moves the session to
-- needs-validation under a new revision without its approval, where any other edit keeps both.
pub edit_lem :
    (u : CandidateUpdate) (tags : Option (List String)) (r now : ℕ) (seen s : Session)
    → seen.discarded_at ≡ none
    → (s.content_revision == r && is_live s && is_editable s) ≡ true
    → let (returned, slot) = edit_candidate u tags r now (some seen) (some s) (λ t. t) in
      (returned ≡ ok tt)
      × Holds
          (Edited
            (has_semantic_change
              (candidate_content seen.candidate)
              (merge (base_candidate seen.variation) u).content)
            (merge (base_candidate seen.variation) u)
            s)
          slot
unfolding edit_candidate
edit_lem u tags r now seen s e h = ground (arith, Edited-write u tags r now seen s h)

-- The edit of a session in which a run is about to land. The edit reads the document while no
-- candidate is stored; the run then stores its candidate and a passing verdict, without a new
-- revision; the edit is accepted at that revision, and what it stores has neither the problem type
-- nor the correct answer that the run had generated, for every edit that sends only a text.
pub edit_drops_candidate :
    (t : Option String) (c : Candidate) (v : Validation) (r n0 n1 now : ℕ) (s : Session)
    → s.candidate ≡ none
    → (s.content_revision == r && is_live s) ≡ true
    → s.status ≡ VariationStatus.generating
    → let landed = (save_result r pass v true n1 (save_checkpoint r c n0 (some s)).0).0 in
      let (returned, slot) =
        edit_candidate
          (record { text = some t; problem_type = none; graph_dsl = none; correct_answer = none })
          none
          r
          now
          (some s)
          landed
          (λ x. x) in
      (Holds (λ x. x.candidate ≡ some c) landed)
      × (returned ≡ ok tt)
      × Holds
          (λ x.
            (candidate_content x.candidate).problem_type ≡ none
            × (candidate_content x.candidate).correct_answer ≡ none)
          slot
unfolding edit_candidate write_edit save_checkpoint save_result
edit_drops_candidate t c v r n0 n1 now s e h g = ground arith
