-- ===== src/Exam/Progress.antt =====
-- Each turn of the worker's loop makes one more item terminal, so the loop ends in a submitted exam.
use learn_loop.Prelude.{
  ℕ, ◌+◌, ◌≡◌, refl, Option, none, some, List, [], ◌∷◌, String, true, false, not, arith, count_if,
  all, find_first, eq_iff,
}
use learn_loop.Exam.Model.{ExamItem, Grading, is_terminal}
use learn_loop.Exam.Worker.{has_item, set_grading}

-- The items have different ids, as `uuid4` makes them.
abbrev pub DistinctItems : List ExamItem → Type 0
DistinctItems [] = Unit
DistinctItems (i ∷ items) = (has_item i.item_id items ≡ false) × DistinctItems items

-- The items that are still to grade.
abbrev pub open_count : List ExamItem → ℕ
open_count items = count_if (λ i. not (is_terminal i.grading)) items

abbrev pub next_open : List ExamItem → Option ExamItem
next_open items = find_first (λ i. not (is_terminal i.grading)) items

pub all_terminal :
    (items : List ExamItem) → next_open items ≡ none → all (λ i. is_terminal i.grading) items ≡ true
all_terminal [] h = refl
all_terminal (i ∷ items) h = ground (arith, all_terminal items)

has_item-set_grading :
    (k id : String) (g : Grading) (items : List ExamItem)
    → has_item k (set_grading id g items) ≡ has_item k items
unfolding set_grading
has_item-set_grading k id g [] = refl
has_item-set_grading k id g (i ∷ items) = ground (arith, has_item-set_grading k id g items)

pub set_grading-DistinctItems :
    (id : String) (g : Grading) (items : List ExamItem)
    → DistinctItems items
    → DistinctItems (set_grading id g items)
unfolding set_grading
set_grading-DistinctItems id g [] d = tt
set_grading-DistinctItems id g (i ∷ items) d =
    ground
      (arith, has_item-set_grading i.item_id id g items, set_grading-DistinctItems id g items d.1)

pub next-has_item :
    (items : List ExamItem) (i : ExamItem)
    → next_open items ≡ some i
    → has_item i.item_id items ≡ true
next-has_item [] i h = cc
next-has_item (j ∷ items) i h = ground (arith, next-has_item items i, eq_iff j.item_id i.item_id)

-- The item that is graded next gets its grading, and no other item does.
pub progress :
    (items : List ExamItem) (i : ExamItem) (g : Grading)
    → DistinctItems items
    → next_open items ≡ some i
    → is_terminal g ≡ true
    → open_count (set_grading i.item_id g items) + 1 ≡ open_count items
unfolding set_grading
progress [] i g d h t = cc
progress (j ∷ items) i g d h t =
    ground (arith, progress items i g d.1, next-has_item items i, eq_iff j.item_id i.item_id)
