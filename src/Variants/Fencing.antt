-- ===== src/Variants/Fencing.antt =====
-- A background run that was overridden can no longer write, and an ended session stays as it ended.
use learn_loop.Prelude.{
  ℕ, ◌+◌, ◌≤◌, ◌≡◌, Option, none, some, String, List, Bool, true, false, is_some, arith, ◌||◌,
}
use learn_loop.Assessment.{Validation}
use learn_loop.Variants.Drafts.{Candidate}
use learn_loop.Variants.Sessions.{Session, Slot}
use learn_loop.Variants.Repository.{
  Verdict, claim_generation, request_generation, save_checkpoint, save_result, mark_submitted,
}
use learn_loop.Variants.Run.{Op, act, run, Holds, run_induction}

abbrev pub AtLeast : ℕ → Session → Type 0
AtLeast r s = r ≤ s.content_revision

act-AtLeast : (r : ℕ) (op : Op) (s : Session) → AtLeast r s → Holds (AtLeast r) (act op (some s)).0
unfolding act
act-AtLeast r op s h = ground arith

-- The three writes of a background run that claimed revision `r`.
stale_refused :
    (r : ℕ) (slot : Slot) (c : Candidate) (verdict : Verdict) (v : Validation) (present : Bool)
    (now : ℕ)
    → Holds (AtLeast (r + 1)) slot
    → (claim_generation r now slot ≡ (slot, false))
      × (save_checkpoint r c now slot ≡ (slot, false))
      × (save_result r verdict v present now slot ≡ (slot, false))
unfolding claim_generation save_checkpoint save_result
stale_refused r none c verdict v present now h = absurd h
stale_refused r (some s) c verdict v present now h = ground arith

generated :
    (r now : ℕ) (s : Session)
    → (request_generation r now (some s)).1 ≡ true
    → Holds (AtLeast (r + 1)) (request_generation r now (some s)).0
unfolding request_generation
generated r now s h = ground arith

-- Once Generate has landed at revision `r`, then after any further writes none of the writes of the
-- run that it superseded changes the session: neither its claim, nor its candidate, nor its verdict.
pub superseded_run_is_fenced :
    (r now later : ℕ) (s : Session) (ops : List Op) (c : Candidate) (verdict : Verdict)
    (v : Validation) (present : Bool)
    → (request_generation r now (some s)).1 ≡ true
    → let slot = run ops (request_generation r now (some s)).0 in
      (claim_generation r later slot ≡ (slot, false))
      × (save_checkpoint r c later slot ≡ (slot, false))
      × (save_result r verdict v present later slot ≡ (slot, false))
superseded_run_is_fenced r now later s ops c verdict v present h =
    stale_refused r _ c verdict v present later
      (run_induction (AtLeast (r + 1)) (act-AtLeast (r + 1)) ops _ (generated r now s h))

-- The session was submitted or discarded.
abbrev pub Ended : Session → Type 0
Ended s = (is_some s.submit || is_some s.discarded_at) ≡ true

-- What a user sees of a session agrees: everything but reservations and the time of the last write.
pub record SameOutcome (s t : Session) : Type 0 where
  pub revision : t.content_revision ≡ s.content_revision
  pub status : t.status ≡ s.status
  pub candidate : t.candidate ≡ s.candidate
  pub validation : t.validation ≡ s.validation
  pub validated_revision : t.validated_revision ≡ s.validated_revision
  pub attestation : t.attestation ≡ s.attestation
  pub generation_count : t.generation_count ≡ s.generation_count
  pub tags : t.tags ≡ s.tags
  pub submit : t.submit ≡ s.submit
  pub discarded_at : t.discarded_at ≡ s.discarded_at

act-SameOutcome :
    (s : Session)
    → Ended s
    → (op : Op) (t : Session) → SameOutcome s t
    → Holds (SameOutcome s) (act op (some t)).0
unfolding act
act-SameOutcome s e op t h = ground arith

-- A session that was submitted or discarded keeps its outcome through any further writes.
pub run-SameOutcome :
    (s : Session) (ops : List Op) → Ended s → Holds (SameOutcome s) (run ops (some s))
run-SameOutcome s ops e =
    run_induction (SameOutcome s) (act-SameOutcome s e) ops (some s) (ground arith)

marked :
    (id : String) (r : ℕ) (token : Option String) (now : ℕ) (s : Session)
    → (mark_submitted id r token now (some s)).1 ≡ true
    → Holds Ended (mark_submitted id r token now (some s)).0
unfolding mark_submitted
marked id r token now s h = ground arith

Ended-refused :
    (slot : Slot) (id : String) (r : ℕ) (token : Option String) (now : ℕ)
    → Holds Ended slot
    → mark_submitted id r token now slot ≡ (slot, false)
unfolding mark_submitted
Ended-refused none id r token now h = absurd h
Ended-refused (some s) id r token now h = ground arith

act-Ended : (op : Op) (s : Session) → Ended s → Holds Ended (act op (some s)).0
unfolding act
act-Ended op s h = ground arith

-- A session admits at most one problem: after a submission that landed, and any further writes,
-- every submission is refused, whatever token and revision it brings, and changes nothing.
pub submitted_once :
    (id other : String) (r q : ℕ) (token token' : Option String) (now later : ℕ) (s : Session)
    (ops : List Op)
    → (mark_submitted id r token now (some s)).1 ≡ true
    → let slot = run ops (mark_submitted id r token now (some s)).0 in
      mark_submitted other q token' later slot ≡ (slot, false)
submitted_once id other r q token token' now later s ops h =
    Ended-refused _ other q token' later
      (run_induction Ended act-Ended ops _ (marked id r token now s h))
