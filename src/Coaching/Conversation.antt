-- ===== src/Coaching/Conversation.antt =====
-- A conversation and the turn of `CoachingService.send_message`. The document is the one of a problem
-- and a user, if there is one; what the request reads besides is an argument.
use learn_loop.Prelude.{
  ℕ, ◌+◌, Option, none, some, String, List, [], ◌∷◌, ◌++◌, Bool, not, if◌then◌else◌, length, leb,
  ltb, Result, ok, err, ◌>>=◌,
}

-- `CoachingRole`
pub data Role : Type 0 where
  student coach : Role

pub record Message : Type 0 where
  pub role : Role
  pub content : String
  pub whiteboard_dsl : Option String
  pub reasoning_content : Option String
  pub created_at : ℕ

pub record Conversation : Type 0 where
  pub messages : List Message
  pub created_at : ℕ
  pub updated_at : ℕ

abbrev pub messages_per_turn : ℕ
messages_per_turn = 2

abbrev pub max_conversation_messages : ℕ
max_conversation_messages = 20

-- `CoachingError` by its code.
pub data CoachingError : Type 0 where
  active_exam_restriction not_found message_cap_exceeded vlm_failure : CoachingError

-- `add_message`, whose `ValueError` the service turns into this error.
unfoldable pub add_message : Message → ℕ → Conversation → Result CoachingError Conversation
add_message m now c =
    if leb max_conversation_messages (length c.messages)
    then err message_cap_exceeded
    else ok (record c { messages = c.messages ++ (m ∷ []); updated_at = now })

-- What the model gave back.
pub record CoachReply : Type 0 where
  pub text : String
  pub whiteboard_dsl : Option String
  pub reasoning_content : Option String

abbrev pub asked : String → ℕ → Message
asked message now = record {
  role = student;
  content = message;
  whiteboard_dsl = none;
  reasoning_content = none;
  created_at = now;
}

abbrev pub answered : CoachReply → ℕ → Message
answered reply now = record {
  role = coach;
  content = reply.text;
  whiteboard_dsl = reply.whiteboard_dsl;
  reasoning_content = reply.reasoning_content;
  created_at = now;
}

abbrev pub fetched : ℕ → Option Conversation → Conversation
fetched now none = record { messages = []; created_at = now; updated_at = now }
fetched now (some c) = c

-- The call of the model, `none` if it raised, and the two messages.
abbrev pub append_turn :
    Option CoachReply → String → ℕ → Conversation → Result CoachingError Conversation
append_turn none message now c = err vlm_failure
append_turn (some reply) message now c =
    add_message (asked message now) now c >>= add_message (answered reply now) now

-- The checks in their order, up to the save.
unfoldable pub next_conversation :
    ℕ
    → Bool
    → Option CoachReply
    → String
    → ℕ
    → Option Conversation
    → Result CoachingError Conversation
unfolding add_message
next_conversation active_exams problem_found reply message now seen =
    if ltb 0 active_exams
    then err active_exam_restriction
    else if not problem_found
    then err not_found
    else if ltb max_conversation_messages (length (fetched now seen).messages + messages_per_turn)
    then err message_cap_exceeded
    else append_turn reply message now (fetched now seen)

abbrev pub saved : Result CoachingError Conversation → Option Conversation → Option Conversation
saved (err e) current = current
saved (ok c) current = some c

-- `seen` is the conversation as it was read, `current` the stored one at the upsert, which writes the
-- whole document.
unfoldable pub send_message :
    ℕ
    → Bool
    → Option CoachReply
    → String
    → ℕ
    → Option Conversation
    → Option Conversation
    → Result CoachingError Conversation × Option Conversation
unfolding next_conversation
send_message active_exams problem_found reply message now seen current =
    let next = next_conversation active_exams problem_found reply message now seen in
    (next, saved next current)

-- `clear_conversation`
pub clear_conversation : Option Conversation → Option Conversation
clear_conversation current = none
