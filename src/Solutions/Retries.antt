-- ===== src/Solutions/Retries.antt =====
-- A task comes to an end after a bounded number of attempts.
use learn_loop.Prelude.{
  ℕ, zero, suc, ◌+◌, ◌*◌, ◌^◌, ◌≤◌, ◌<◌, ◌≡◌, ◌⊎◌, inl, inr, Option, none, some, true, false, arith,
  if◌then◌else◌,
}
use learn_loop.Solutions.Tasks.{SolutionTask, pending, ready, failed, has_status}
use learn_loop.Solutions.Worker.{Outcome, settle, claimed, half_minute}

-- A task that is claimed and processed as often as it is due again, `replies` giving the end of the
-- attempt at each retry count and `clock` its time. `none` means that the fuel ran out.
unfoldable pub attempts : ℕ → ℕ → (ℕ → Outcome) → (ℕ → ℕ) → SolutionTask → Option SolutionTask
attempts zero max_retries replies clock t = none
attempts (suc fuel) max_retries replies clock t =
    let started = claimed (clock t.retry_count) t in
    let t' = settle max_retries started (replies t.retry_count) (clock t.retry_count) started in
    let rest = attempts fuel max_retries replies clock t' in
    if has_status pending t' then rest else some t'

-- The task is done, by at most one attempt more than the retries that are allowed.
abbrev pub Settled : ℕ → Option SolutionTask → Type 0
Settled max_retries none = ⊥
Settled max_retries (some t) =
    ((t.status ≡ ready) ⊎ (t.status ≡ failed)) × (t.retry_count ≤ max_retries + 1)

settle-cases :
    (max_retries now : ℕ) (started : SolutionTask) (o : Outcome)
    → started.retry_count ≤ max_retries
    → let t = settle max_retries started o now started in
      ((has_status pending t ≡ false) × Settled max_retries (some t))
      ⊎ ((has_status pending t ≡ true)
          × (t.retry_count ≡ started.retry_count + 1)
          × (t.retry_count ≤ max_retries)
          × (t.process_after ≡ now + half_minute * 2 ^ started.retry_count))
unfolding settle
settle-cases max_retries now started o h = ground arith

-- Whatever the model replies at each attempt, a task whose retries are not used up is ready or
-- failed after as many attempts as it has retries left, and one more; retries are never counted
-- beyond the limit and one.
pub attempts-Settled :
    (fuel max_retries : ℕ) (replies : ℕ → Outcome) (clock : ℕ → ℕ) (t : SolutionTask)
    → t.retry_count ≤ max_retries
    → max_retries < fuel + t.retry_count
    → Settled max_retries (attempts fuel max_retries replies clock t)
unfolding attempts
attempts-Settled zero max_retries replies clock t h f = absurd (omega arith)
attempts-Settled (suc fuel) max_retries replies clock t h f =
    let started = claimed (clock t.retry_count) t in
    elim (settle-cases max_retries (clock t.retry_count) started (replies t.retry_count) h) [
      | inl (n, d) ↦ rw n d
      | inr (p, c, l, _) ↦ rw p (attempts-Settled fuel max_retries replies clock _ l (omega arith))
    ]
