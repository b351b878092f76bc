-- ===== src/States/Chains.antt =====
-- Successions of transitions: an exam's are short, a variation can always be brought to approval.
use learn_loop.Prelude.{
  >>=-eq-ok, ℕ, ◌+◌, ◌≤◌, ◌≡◌, List, [], ◌∷◌, Result, ok, ◌>>=◌, length, arith,
}
use learn_loop.States.{
  ExamState, VariationStatus, TransitionError, transition_exam_state, transition_variation_status,
}

-- Each target in turn, as successive calls would go.
unfoldable pub exam_path : ExamState → List ExamState → Result TransitionError ExamState
exam_path s [] = ok s
exam_path s (t ∷ ts) = transition_exam_state s t >>= λ u. exam_path u ts

pub variation_path : VariationStatus → List VariationStatus → Result TransitionError VariationStatus
variation_path s [] = ok s
variation_path s (t ∷ ts) = transition_variation_status s t >>= λ u. variation_path u ts

-- How many transitions an exam has left at most.
abbrev pub exam_rank : ExamState → ℕ
exam_rank ExamState.in_progress = 2
exam_rank ExamState.grading = 1
exam_rank ExamState.submitted = 0
exam_rank ExamState.discarded = 0

transition-lt :
    (s t u : ExamState) → transition_exam_state s t ≡ ok u → exam_rank u + 1 ≤ exam_rank s
unfolding transition_exam_state
transition-lt s t u h = ground arith

path-le :
    (s t : ExamState) (ts : List ExamState)
    → exam_path s ts ≡ ok t
    → exam_rank t + length ts ≤ exam_rank s
unfolding exam_path
path-le s t [] h = ground arith
path-le s t (u ∷ ts) h =
    let (v, e, rest) = >>=-eq-ok (transition_exam_state s u) (λ v. exam_path v ts) h in
    omega (arith, path-le v t ts rest, transition-lt s u v e)

-- However the transitions of an exam are chosen, those that succeed in a row are at most two,
-- and after them it is terminal if there were two.
pub exam_path_bounded :
    (s t : ExamState) (ts : List ExamState) → exam_path s ts ≡ ok t → exam_rank t + length ts ≤ 2
exam_path_bounded s t ts h = ground (arith, path-le s t ts h)

-- The transitions by which a status is brought to `ready`.
abbrev pub route_to_ready : VariationStatus → List VariationStatus
route_to_ready VariationStatus.not_requested =
    VariationStatus.queued ∷ VariationStatus.validating ∷ VariationStatus.ready ∷ []
route_to_ready VariationStatus.queued = VariationStatus.validating ∷ VariationStatus.ready ∷ []
route_to_ready VariationStatus.generating = VariationStatus.validating ∷ VariationStatus.ready ∷ []
route_to_ready VariationStatus.validating = VariationStatus.ready ∷ []
route_to_ready VariationStatus.ready = []
route_to_ready VariationStatus.failed = VariationStatus.ready ∷ []
route_to_ready VariationStatus.needs_validation = VariationStatus.ready ∷ []

-- From every status of the variation lifecycle at most three legal transitions lead to `ready`:
-- no item is ever stuck.
pub ready_reachable :
    (s : VariationStatus)
    → (ts : List VariationStatus) × (variation_path s ts ≡ ok VariationStatus.ready)
      × (length ts ≤ 3)
unfolding variation_path transition_variation_status
ready_reachable s = (route_to_ready s, ground arith, ground arith)
