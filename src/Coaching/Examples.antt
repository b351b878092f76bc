-- ===== src/Coaching/Examples.antt =====
-- A first turn.
use learn_loop.Prelude.{◌≡◌, none, some, true}
use learn_loop.Coaching.Conversation.{CoachReply, fetched, send_message}
use learn_loop.Coaching.Turns.{IsNext, IsWellFormed, is_admitted, is_ok, send_message_lem}

abbrev hint : CoachReply
hint = record { text = "What is 2 + 2?"; whiteboard_dsl = none; reasoning_content = none }

first_turn_example :
    let (next, stored) = send_message 0 true (some hint) "Help" 10 none none in
    (is_ok next ≡ is_admitted 0 true (some hint) (fetched 10 none).messages)
    × IsNext (fetched 10 none).messages next
    × IsWellFormed stored
first_turn_example = send_message_lem 0 true (some hint) "Help" 10 none none tt tt
