-- ===== src/Prelude/Documents.antt =====
-- How the repositories write: one atomic update of the document that a filter addresses.
-- `slot` is the document with the `_id`, the `userId` and the like that the filter names, if there
-- is one; `matches` is the rest of the filter and `change` the `$set`, `$inc` and `$push`.
use mathlib.Core.Bool.{Bool, true, false}
use mathlib.Core.Option.{Option, none, some}
use mathlib.Core.List.{List, [], ◌∷◌}
use learn_loop.Prelude.Tests.{if◌then◌else◌}

module _ {ℓ} {D : Type ℓ} where
  -- The new slot, and `result.matched_count == 1`.
  abbrev pub update_one : (D → Bool) → (D → D) → Option D → Option D × Bool
  update_one matches change none = (none, false)
  update_one matches change (some d) =
      if matches d then (some (change d), true) else (some d, false)

  -- A positional update, `xs.$`: the first element that matches.
  abbrev pub update_first : (D → Bool) → (D → D) → List D → List D
  update_first matches change [] = []
  update_first matches change (d ∷ ds) =
      if matches d then change d ∷ ds else d ∷ update_first matches change ds
