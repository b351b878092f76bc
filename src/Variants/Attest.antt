-- ===== src/Variants/Attest.antt =====
-- The attestation filter, written for the database, agrees with `is_attestable`.
use learn_loop.Prelude.{
  ◌≡◌, refl, some, List, [], ◌∷◌, false, arith, not, ◌&&◌, ◌||◌, all, any, ℕ, ◌==◌,
}
use learn_loop.States.{VariationStatus}
use learn_loop.Assessment.{
  Validation, StoredFailure, is_attestable, is_overridable, has_verdict, is_empty_list,
}
use learn_loop.Assessment.Exclusive.{pass-ne-fail}
use learn_loop.Variants.Sessions.{Session, is_live, has_status}
use learn_loop.Variants.Repository.{attest_validation, attest_filter, kind_not_in, has_first}

not_in : (f : StoredFailure) → kind_not_in f ≡ not (is_overridable f)
unfolding is_overridable
not_in f = ground arith

any-kind_not_in : (fs : List StoredFailure) → not (any kind_not_in fs) ≡ all is_overridable fs
any-kind_not_in [] = refl
any-kind_not_in (f ∷ fs) = ground (arith, not_in f, any-kind_not_in fs)

has_first-is_empty_list : (fs : List StoredFailure) → has_first fs ≡ not (is_empty_list fs)
has_first-is_empty_list [] = refl
has_first-is_empty_list (f ∷ fs) = refl

-- On a session that needs validation the filter is `is_attestable`; so it is on a failed session,
-- whose stored verdict is a failure.
filter-eq :
    (v : Validation) (s : Session)
    → has_status VariationStatus.failed s && has_verdict "pass" v ≡ false
    → attest_filter (some v) s ≡ (
        (has_status VariationStatus.needs_validation s || has_status VariationStatus.failed s)
        && is_attestable (some v))
unfolding is_attestable
filter-eq v s h =
    ground (arith, any-kind_not_in v.failures, has_first-is_empty_list v.failures, pass-ne-fail v)

-- The database's filter and the domain's rule agree: of a session that keeps no passing verdict
-- while it is failed, an attestation at revision `r` lands exactly when the session is live and at
-- that revision, needs validation or failed, and its stored validation is attestable.
pub attest-eq-is_attestable :
    (r now : ℕ) (s : Session) (v : Validation)
    → s.validation ≡ some v
    → has_status VariationStatus.failed s && has_verdict "pass" v ≡ false
    → (attest_validation r now (some s)).1 ≡ (
        s.content_revision == r
        && is_live s
        && (has_status VariationStatus.needs_validation s || has_status VariationStatus.failed s)
        && is_attestable (some v))
unfolding attest_validation
attest-eq-is_attestable r now s v e h = ground (arith, filter-eq v s h)
