-- ===== src/Exam/Tasks.antt =====
-- The grading tasks: claim, ownership, lease and release (exam_grading_worker.py, lines 28 to 129).
-- The worker sees tasks by their `_id`; a claim takes the oldest that matches.
use learn_loop.Prelude.{
  ℕ, ◌+◌, Option, none, some, String, List, [], ◌∷◌, Bool, true, false, ◌&&◌, str_eq, leb, ltb,
  ◌==◌, if◌then◌else◌,
}

pub data TaskStatus : Type 0 where
  pending processing completed : TaskStatus

pub record Task : Type 0 where
  pub exam_id : ℕ
  pub user_id : ℕ
  pub status : TaskStatus
  pub claim_token : Option String
  pub lease_until : Option ℕ
  pub created_at : ℕ
  pub updated_at : ℕ

-- The collection, by `_id`.
abbrev pub Tasks : Type 0
Tasks = List (ℕ × Task)

abbrev pub task_code : TaskStatus → ℕ
task_code pending = 0
task_code processing = 1
task_code completed = 2

abbrev pub task_is : TaskStatus → Task → Bool
task_is x t = task_code t.status == task_code x

abbrev pub has_token : String → Task → Bool
has_token token t = elim t.claim_token [ none ↦ false | some c ↦ str_eq c token ]

-- A task that is processed under the claim `token`.
unfoldable pub is_owned : String → Task → Bool
is_owned token t = task_is processing t && has_token token t

-- `{"leaseUntil": {"$lte": now}}`: a null lease does not match.
abbrev pub lease_expired : ℕ → Task → Bool
lease_expired now t = elim t.lease_until [ none ↦ false | some u ↦ leb u now ]

unfoldable pub find_task : ℕ → Tasks → Option Task
find_task id [] = none
find_task id ((j, t) ∷ ts) = if id == j then some t else find_task id ts

-- The document with this `_id`, rewritten.
unfoldable pub set_task : ℕ → (Task → Task) → Tasks → Tasks
set_task id change [] = []
set_task id change ((j, t) ∷ ts) =
    if id == j then (j, change t) ∷ ts else (j, t) ∷ set_task id change ts

-- The older of two matching tasks, `sort=[("createdAt", 1)]`; the earlier one where they tie.
abbrev pub older : ℕ × Task → Option (ℕ × Task) → ℕ × Task
older a none = a
older (i, t) (some (j, u)) = if ltb u.created_at t.created_at then (j, u) else (i, t)

unfoldable pub oldest : (Task → Bool) → Tasks → Option (ℕ × Task)
oldest matches [] = none
oldest matches ((j, t) ∷ ts) =
    let rest = oldest matches ts in if matches t then some (older (j, t) rest) else rest

-- The `$set` of either claim.
abbrev pub claimed : String → ℕ → ℕ → Task → Task
claimed token lease_until now t = record t {
  status = processing;
  claim_token = some token;
  lease_until = some lease_until;
  updated_at = now;
}

-- The second claim does not write the status, which its filter fixes.
abbrev pub reclaimed : String → ℕ → ℕ → Task → Task
reclaimed token lease_until now t = record t {
  claim_token = some token;
  lease_until = some lease_until;
  updated_at = now;
}

abbrev pub claim_from :
    Option (ℕ × Task) → Option (ℕ × Task) → String → ℕ → ℕ → Tasks → Option (ℕ × Task) × Tasks
claim_from (some (id, t)) stale token until now ts =
    (some (id, claimed token until now t), set_task id (claimed token until now) ts)
claim_from none (some (id, t)) token until now ts =
    (some (id, reclaimed token until now t), set_task id (reclaimed token until now) ts)
claim_from none none token until now ts = (none, ts)

unfoldable pub claim_task : String → ℕ → ℕ → Tasks → Option (ℕ × Task) × Tasks
unfolding find_task set_task oldest
claim_task token lease now ts =
    claim_from (oldest (task_is pending) ts)
      (oldest (λ t. task_is processing t && lease_expired now t) ts) token (now + lease) now ts

abbrev pub owned_by : String → Option Task → Bool
owned_by token none = false
owned_by token (some t) = is_owned token t

unfoldable pub verify_ownership : ℕ → String → Tasks → Bool
unfolding is_owned find_task
verify_ownership id token ts = owned_by token (find_task id ts)

-- A conditional write to the task, if it is still owned under `token`; whether it matched.
unfoldable pub update_owned : ℕ → String → (Task → Task) → Tasks → Tasks × Bool
unfolding is_owned set_task find_task
update_owned id token change ts =
    if owned_by token (find_task id ts) then (set_task id change ts, true) else (ts, false)

unfoldable pub refresh_lease : ℕ → String → ℕ → ℕ → Tasks → Tasks × Bool
unfolding update_owned
refresh_lease id token lease now =
    update_owned id token (λ t. record t { lease_until = some (now + lease); updated_at = now })

unfoldable pub release_task : ℕ → String → ℕ → Tasks → Tasks × Bool
unfolding update_owned
release_task id token now =
    update_owned id token
      (λ t. record t { status = pending; claim_token = none; lease_until = none; updated_at = now })

unfoldable pub complete_task : ℕ → String → ℕ → Tasks → Tasks × Bool
unfolding update_owned
complete_task id token now =
    update_owned id token (λ t. record t { status = completed; updated_at = now })
