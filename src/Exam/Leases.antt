-- ===== src/Exam/Leases.antt =====
-- Of two claims on one task only the later one owns it.
use learn_loop.Prelude.{
  Option-cases, inl, inr, if◌then◌else◌, ◌||◌, ℕ, ◌+◌, ◌≡◌, refl, Option, none, some, String, [],
  ◌∷◌, Bool, true, false, ◌&&◌, ◌||◌, arith, ◌==◌, eq_iff, str_eq, Option-cases, inl, inr,
}
use learn_loop.Exam.Tasks.{
  owned_by, Task, Tasks, pending, processing, task_is, is_owned, lease_expired, find_task, set_task,
  oldest, older, claimed, reclaimed, claim_from, claim_task, verify_ownership, refresh_lease,
  release_task, complete_task, owned_by,
}

-- No two tasks have one `_id`.
abbrev pub Distinct : Tasks → Type 0
Distinct [] = Unit
Distinct ((j, t) ∷ ts) = (find_task j ts ≡ none) × Distinct ts

pub find-set_self :
    (id : ℕ) (change : Task → Task) (ts : Tasks) (t : Task)
    → find_task id ts ≡ some t
    → find_task id (set_task id change ts) ≡ some (change t)
unfolding find_task set_task
find-set_self id change [] t h = cc
find-set_self id change ((j, u) ∷ ts) t h = ground (arith, find-set_self id change ts t)

pub find-set_ne :
    (id k : ℕ) (change : Task → Task) (ts : Tasks)
    → id == k ≡ false
    → find_task k (set_task id change ts) ≡ find_task k ts
unfolding find_task set_task
find-set_ne id k change [] h = refl
find-set_ne id k change ((j, u) ∷ ts) h = ground (arith, find-set_ne id k change ts)

-- What a claim's search finds: the task of that `_id`, and one that its filter matches.
Found : (Task → Bool) → Tasks → Option (ℕ × Task) → Type 0
Found p ts none = Unit
Found p ts (some (id, t)) = (find_task id ts ≡ some t) × (p t ≡ true)

Found-step :
    (p : Task → Bool) (j : ℕ) (u : Task) (ts : Tasks) (rest : Option (ℕ × Task))
    → find_task j ts ≡ none
    → Found p ts rest
    → Found p ((j, u) ∷ ts) (if p u then some (older (j, u) rest) else rest)
unfolding Found find_task
Found-step p j u ts none d h = ground arith
Found-step p j u ts (some (i, w)) d h = ground arith

oldest-Found : (p : Task → Bool) (ts : Tasks) → Distinct ts → Found p ts (oldest p ts)
unfolding Found oldest find_task
oldest-Found p [] d = tt
oldest-Found p ((j, u) ∷ ts) d = Found-step p j u ts (oldest p ts) d.0 (oldest-Found p ts d.1)

-- The task could be claimed: it was pending, or processed under a lease that had run out.
abbrev pub Claimable : ℕ → Task → Type 0
Claimable now t = (task_is pending t || (task_is processing t && lease_expired now t)) ≡ true

-- What a claim gives: a task that could be claimed, now stored as processed under the new token
-- until the new lease ends.
abbrev pub Claimed : String → ℕ → ℕ → Tasks → Option (ℕ × Task) × Tasks → Type 0
Claimed token lease now ts (none, ts') = ts' ≡ ts
Claimed token lease now ts (some (id, t), ts') =
    (find_task id ts' ≡ some t)
    × (is_owned token t ≡ true)
    × (t.lease_until ≡ some (now + lease))
    × ((old : Task) × (find_task id ts ≡ some old) × Claimable now old)

claim_from-Claimed :
    (a b : Option (ℕ × Task)) (token : String) (lease now : ℕ) (ts : Tasks)
    → Found (task_is pending) ts a
    → Found (λ t. task_is processing t && lease_expired now t) ts b
    → Claimed token lease now ts (claim_from a b token (now + lease) now ts)
unfolding Found is_owned
claim_from-Claimed (some (id, t)) b token lease now ts h k = (
  find-set_self id (claimed token (now + lease) now) ts t h.0,
  (eq_iff token token).1 refl,
  refl,
  (t, h.0, ground arith),
)
claim_from-Claimed none (some (id, t)) token lease now ts h k = (
  find-set_self id (reclaimed token (now + lease) now) ts t k.0,
  ground (arith, eq_iff token token),
  refl,
  (t, k.0, ground arith),
)
claim_from-Claimed none none token lease now ts h k = refl

-- A claim takes a task that was pending or whose lease had run out, and stores it as owned under
-- the new token with the new lease; without such a task it changes nothing.
pub claim_task-Claimed :
    (token : String) (lease now : ℕ) (ts : Tasks)
    → Distinct ts
    → Claimed token lease now ts (claim_task token lease now ts)
unfolding claim_task
claim_task-Claimed token lease now ts d =
    claim_from-Claimed (oldest (task_is pending) ts)
      (oldest (λ t. task_is processing t && lease_expired now t) ts) token lease now ts
      (oldest-Found (task_is pending) ts d)
      (oldest-Found (λ t. task_is processing t && lease_expired now t) ts d)

not_both :
    (old new : String) (t : Task)
    → str_eq old new ≡ false
    → is_owned new t ≡ true
    → is_owned old t ≡ false
unfolding is_owned
not_both old new t ne h = elim (Option-cases t.claim_token) [
  | inl e ↦ rw e (ground arith)
  | inr (c, e) ↦ ground (arith, eq_iff c old, eq_iff c new, eq_iff old new)
]

lost :
    (old new : String) (lease now id : ℕ) (t : Task) (ts : Tasks) (r : Option (ℕ × Task) × Tasks)
    → str_eq old new ≡ false
    → Claimed new lease now ts r
    → r.0 ≡ some (id, t)
    → owned_by old (find_task id r.1) ≡ false
lost old new lease now id t ts (none, ts') ne c h = cc
lost old new lease now id t ts (some (i, u), ts') ne c h =
    let same : i ≡ id = ground arith in rw (← same) (rw (c.0) (not_both old new u ne c.1))

-- After a later claim of the same task under another token, the earlier owner has lost it: it no
-- longer sees itself as the owner, and neither its refresh, nor its release, nor its completion
-- matches or changes a task.
pub reclaim_fences :
    (old new : String) (id lease now later : ℕ) (t : Task) (ts : Tasks)
    → Distinct ts
    → str_eq old new ≡ false
    → (claim_task new lease now ts).0 ≡ some (id, t)
    → let ts' = (claim_task new lease now ts).1 in
      (verify_ownership id old ts' ≡ false)
      × (refresh_lease id old lease later ts' ≡ (ts', false))
      × (release_task id old later ts' ≡ (ts', false))
      × (complete_task id old later ts' ≡ (ts', false))
unfolding verify_ownership refresh_lease release_task complete_task
reclaim_fences old new id lease now later t ts d ne h =
    let gone : owned_by old (find_task id (claim_task new lease now ts).1) ≡ false =
      lost old new lease now id t ts (claim_task new lease now ts) ne
        (claim_task-Claimed new lease now ts d) h in
    (gone, rw gone, rw gone, rw gone)
