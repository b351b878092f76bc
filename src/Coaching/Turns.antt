-- ===== src/Coaching/Turns.antt =====
-- A stored conversation is a sequence of whole turns, at most ten of them.
use learn_loop.Prelude.{
  ℕ, ◌+◌, ◌≤◌, ◌≡◌, refl, Option, none, some, is_some, String, List, [], ◌∷◌, ◌++◌, Bool, true,
  false, ◌&&◌, length, leb, ltb, length-append, Bool-cases, inl, inr, Result, ok, err, ◌==◌, arith,
}
use learn_loop.Coaching.Conversation.{
  student, coach, Message, Conversation, CoachReply, CoachingError, add_message, fetched, asked,
  answered, append_turn, saved, saved, next_conversation, send_message, max_conversation_messages,
  messages_per_turn,
}

-- The messages alternate, a student's first and a coach's last.
abbrev pub AreTurns : List Message → Type 0
AreTurns [] = Unit
AreTurns (s ∷ []) = ⊥
AreTurns (s ∷ c ∷ ms) = (s.role ≡ student) × (c.role ≡ coach) × AreTurns ms

abbrev pub IsWellFormed : Option Conversation → Type 0
IsWellFormed none = Unit
IsWellFormed (some c) = AreTurns c.messages × (length c.messages ≤ max_conversation_messages)

append-AreTurns :
    (ms : List Message) (s c : Message)
    → AreTurns ms
    → s.role ≡ student
    → c.role ≡ coach
    → AreTurns ((ms ++ (s ∷ [])) ++ (c ∷ []))
append-AreTurns [] s c t p q = (p, q, tt)
append-AreTurns (a ∷ []) s c t p q = absurd t
append-AreTurns (a ∷ b ∷ ms) s c t p q = (t.0, t.1, append-AreTurns ms s c t.2 p q)

-- A turn that succeeds, of a conversation that was read with these messages.
abbrev pub IsNext : List Message → Result CoachingError Conversation → Type 0
IsNext ms (err e) = Unit
IsNext ms (ok c) =
    (length c.messages ≡ length ms + messages_per_turn)
    × (length c.messages ≤ max_conversation_messages)
    × (AreTurns ms → AreTurns c.messages)

-- The turn is allowed, fits, and the model answers.
abbrev pub is_admitted : ℕ → Bool → Option CoachReply → List Message → Bool
is_admitted active_exams problem_found reply ms =
    active_exams == 0
    && problem_found
    && leb (length ms + messages_per_turn) max_conversation_messages
    && is_some reply

-- The conversation with both messages of a turn.
abbrev extended : CoachReply → String → ℕ → Conversation → Conversation
extended reply message now c = record c {
  messages = (c.messages ++ (asked message now ∷ [])) ++ (answered reply now ∷ []);
  updated_at = now;
}

append_turn-eq :
    (reply : CoachReply) (message : String) (now : ℕ) (c : Conversation)
    → leb (length c.messages + messages_per_turn) max_conversation_messages ≡ true
    → append_turn (some reply) message now c ≡ ok (extended reply message now c)
unfolding add_message
append_turn-eq reply message now c h =
    ground (arith, length-append c.messages (asked message now ∷ []))

extended-IsNext :
    (reply : CoachReply) (message : String) (now : ℕ) (c : Conversation)
    → leb (length c.messages + messages_per_turn) max_conversation_messages ≡ true
    → IsNext c.messages (ok (extended reply message now c))
extended-IsNext reply message now c h = (
  ground (
    arith,
    length-append c.messages (asked message now ∷ []),
    length-append (c.messages ++ (asked message now ∷ [])) (answered reply now ∷ []),
  ),
  ground (
    arith,
    length-append c.messages (asked message now ∷ []),
    length-append (c.messages ++ (asked message now ∷ [])) (answered reply now ∷ []),
  ),
  λ t. append-AreTurns c.messages (asked message now) (answered reply now) t refl refl,
)

abbrev pub is_ok : Result CoachingError Conversation → Bool
is_ok (ok c) = true
is_ok (err e) = false

refused :
    (active_exams : ℕ) (problem_found : Bool) (reply : CoachReply) (message : String) (now : ℕ)
    (seen : Option Conversation)
    → is_admitted active_exams problem_found (some reply) (fetched now seen).messages ≡ false
    → let next = next_conversation active_exams problem_found (some reply) message now seen in
      (is_ok next ≡ false) × IsNext (fetched now seen).messages next
unfolding next_conversation
refused active_exams problem_found reply message now seen n =
    elim (Bool-cases (ltb 0 active_exams)) [
      | inl a ↦ rw a (refl, tt)
      | inr a ↦ elim (Bool-cases problem_found) [
        | inr f ↦ rw (a, f) (refl, tt)
        | inl f ↦
            let full : ltb max_conversation_messages
                  (length (fetched now seen).messages + messages_per_turn)
                ≡ true =
              ground arith in
            rw (a, f, full) (refl, tt)
      ]
    ]

next_lem :
    (active_exams : ℕ) (problem_found : Bool) (reply : Option CoachReply) (message : String)
    (now : ℕ) (seen : Option Conversation)
    → let next = next_conversation active_exams problem_found reply message now seen in
      (is_ok next ≡ is_admitted active_exams problem_found reply (fetched now seen).messages)
      × IsNext (fetched now seen).messages next
unfolding next_conversation
next_lem active_exams problem_found none message now seen = ground arith
next_lem active_exams problem_found (some r) message now seen =
    let ms = (fetched now seen).messages in
    elim (Bool-cases (is_admitted active_exams problem_found (some r) ms)) [
      | inl a ↦
          let fits : leb (length ms + messages_per_turn) max_conversation_messages ≡ true =
            ground arith in
          let idle : ltb 0 active_exams ≡ false = ground arith in
          let found : problem_found ≡ true = ground arith in
          let under : ltb max_conversation_messages (length ms + messages_per_turn) ≡ false =
            ground arith in
          rw (a, idle, found, under, append_turn-eq r message now (fetched now seen) fits)
            (refl, extended-IsNext r message now (fetched now seen) fits)
      | inr n ↦ rw n (refused active_exams problem_found r message now seen n)
    ]

saved-IsWellFormed :
    (next : Result CoachingError Conversation) (ms : List Message) (current : Option Conversation)
    → IsNext ms next
    → AreTurns ms
    → IsWellFormed current
    → IsWellFormed (saved next current)
saved-IsWellFormed (err e) ms current n t w = w
saved-IsWellFormed (ok c) ms current n t w = (n.2 t, n.1)

fetched-AreTurns :
    (now : ℕ) (seen : Option Conversation)
    → IsWellFormed seen
    → AreTurns (fetched now seen).messages
fetched-AreTurns now none w = tt
fetched-AreTurns now (some c) w = w.0

-- A message is accepted exactly when the user has no exam in progress on the problem, the problem is
-- found, both messages of the turn fit under the cap of twenty, and the model answers. A turn that is
-- accepted adds two messages and stays under the cap. Whatever was stored in between, if what the
-- request read and what it writes to are whole turns under the cap, so is what is stored afterwards.
pub send_message_lem :
    (active_exams : ℕ) (problem_found : Bool) (reply : Option CoachReply) (message : String)
    (now : ℕ) (seen current : Option Conversation)
    → IsWellFormed seen
    → IsWellFormed current
    → let (next, stored) = send_message active_exams problem_found reply message now seen current in
      (is_ok next ≡ is_admitted active_exams problem_found reply (fetched now seen).messages)
      × IsNext (fetched now seen).messages next
      × IsWellFormed stored
unfolding send_message
send_message_lem active_exams problem_found reply message now seen current v w =
    let (admitted, grown) = next_lem active_exams problem_found reply message now seen in
    (
      admitted,
      grown,
      saved-IsWellFormed (next_conversation active_exams problem_found reply message now seen)
          (fetched now seen).messages current grown (fetched-AreTurns now seen v) w,
    )
