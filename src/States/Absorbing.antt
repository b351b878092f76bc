-- ===== src/States/Absorbing.antt =====
-- The states that the code calls terminal are exactly those that no transition leaves.
use learn_loop.Prelude.{◌≡◌, ◌↔◌, true, err, arith}
use learn_loop.States.{
  BatchState, ImageState, ItemState, transition_batch_state, transition_image_state,
  transition_item_state, is_batch_terminal, is_image_terminal, is_item_terminal, invalid_transition,
}

-- A batch is terminal exactly when every transition out of it is refused.
batch_terminal_iff :
    (s : BatchState)
    → (is_batch_terminal s ≡ true)
      ↔ ((t : BatchState) → transition_batch_state s t ≡ err invalid_transition)
unfolding transition_batch_state is_batch_terminal
batch_terminal_iff s = (λ h t. ground arith, λ h. ground (arith, h BatchState.deleted))

-- An image is terminal exactly when every transition out of it is refused.
image_terminal_iff :
    (s : ImageState)
    → (is_image_terminal s ≡ true)
      ↔ ((t : ImageState) → transition_image_state s t ≡ err invalid_transition)
unfolding transition_image_state is_image_terminal
image_terminal_iff s =
    (λ h t. ground arith, λ h. ground (arith, h ImageState.deleted, h ImageState.ready))

-- An item is terminal, in the code's sense, exactly when every transition out of it is refused.
item_terminal_iff :
    (s : ItemState)
    → (is_item_terminal s ≡ true)
      ↔ ((t : ItemState) → transition_item_state s t ≡ err invalid_transition)
unfolding transition_item_state is_item_terminal
item_terminal_iff s =
    (λ h t. ground arith, λ h. ground (arith, h ItemState.deleted, h ItemState.ready))

-- The batches, images and items that the code calls terminal are exactly those from which every
-- transition is refused.
pub terminal_iff :
    (b : BatchState) (i : ImageState) (t : ItemState)
    → ((is_batch_terminal b ≡ true)
        ↔ ((u : BatchState) → transition_batch_state b u ≡ err invalid_transition))
      × ((is_image_terminal i ≡ true)
          ↔ ((u : ImageState) → transition_image_state i u ≡ err invalid_transition))
      × ((is_item_terminal t ≡ true)
          ↔ ((u : ItemState) → transition_item_state t u ≡ err invalid_transition))
terminal_iff b i t = (batch_terminal_iff b, image_terminal_iff i, item_terminal_iff t)
