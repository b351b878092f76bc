-- ===== src/Variants/Reservations.antt =====
-- While a submit request holds its reservation, no other submit and no Generate gets the session.
use learn_loop.Prelude.{
  ℕ, ◌+◌, ◌≤◌, ◌<◌, ◌≡◌, Option, none, some, String, List, [], ◌∷◌, Bool, true, false, arith,
  str_eq, not, ◌&&◌, ltb, leb, all,
}
use learn_loop.Variants.Sessions.{Session, Slot, Reservation}
use learn_loop.Variants.Repository.{
  reserve_for_submit, request_generation, submit_reservation_timeout,
}
use learn_loop.Variants.Run.{Op, act, run, Holds}

-- The clock reading that a write brings.
abbrev pub op_time : Op → ℕ
op_time (Op.claim r now) = now
op_time (Op.generate r now) = now
op_time (Op.revalidate r now) = now
op_time (Op.attest r now) = now
op_time (Op.checkpoint r c now) = now
op_time (Op.result r verdict v present now) = now
op_time (Op.edit u tags r now seen) = now
op_time (Op.tag tags now) = now
op_time (Op.reserve r token now) = now
op_time (Op.renew token now) = now
op_time (Op.release token now) = now
op_time (Op.submit id r token now) = now
op_time (Op.discard_session r now) = now

-- The holder of `token` gives its reservation back, or uses it up.
abbrev pub gives_up : String → Op → Bool
gives_up token (Op.release other now) = str_eq token other
gives_up token (Op.submit id r (some other) now) = str_eq token other
gives_up token _ = false

-- A write by anyone in the ten minutes from `start`, that does not give the reservation up.
abbrev pub is_during : String → ℕ → Op → Bool
is_during token start op =
    leb start (op_time op)
    && ltb (op_time op) (start + submit_reservation_timeout)
    && not (gives_up token op)

-- The session is reserved under `token` at least until the deadline.
abbrev pub IsHeld : String → ℕ → Option Reservation → Type 0
IsHeld token deadline none = ⊥
IsHeld token deadline (some r) = (r.token ≡ token) × (deadline ≤ r.expires_at)

abbrev pub Held : String → ℕ → Session → Type 0
Held token deadline s = IsHeld token deadline s.submit_reservation

act-Held :
    (token : String) (start : ℕ) (op : Op) (s : Session)
    → is_during token start op ≡ true
    → Held token (start + submit_reservation_timeout) s
    → Holds (Held token (start + submit_reservation_timeout)) (act op (some s)).0
unfolding act
act-Held token start op s d h = ground arith

run-Held :
    (token : String) (start : ℕ) (ops : List Op) (slot : Slot)
    → all (is_during token start) ops ≡ true
    → Holds (Held token (start + submit_reservation_timeout)) slot
    → Holds (Held token (start + submit_reservation_timeout)) (run ops slot)
unfolding run
run-Held token start [] slot d h = h
run-Held token start (op ∷ ops) none d h = absurd h
run-Held token start (op ∷ ops) (some s) d h =
    run-Held token start ops (act op (some s)).0 (ground arith)
      (act-Held token start op s (ground arith) h)

Held-refused :
    (token : String) (deadline : ℕ) (slot : Slot) (r : ℕ) (other : String) (now : ℕ)
    → Holds (Held token deadline) slot
    → now < deadline
    → (reserve_for_submit r other now slot ≡ (slot, false))
      × (request_generation r now slot ≡ (slot, false))
unfolding reserve_for_submit request_generation
Held-refused token deadline none r other now h lt = absurd h
Held-refused token deadline (some s) r other now h lt = ground arith

reserved :
    (r : ℕ) (token : String) (start : ℕ) (s : Session)
    → (reserve_for_submit r token start (some s)).1 ≡ true
    → Holds
        (Held token (start + submit_reservation_timeout))
        (reserve_for_submit r token start (some s)).0
unfolding reserve_for_submit
reserved r token start s h = ground arith

-- A reservation taken at `start` keeps every other submit and every Generate out for ten minutes:
-- after any writes of that time, by which the holder has not given it up, both are refused at any
-- moment before the deadline and change nothing. (The holder's own renewals are among the writes.)
pub reservation_excludes :
    (token other : String) (start later r q : ℕ) (s : Session) (ops : List Op)
    → (reserve_for_submit r token start (some s)).1 ≡ true
    → all (is_during token start) ops ≡ true
    → later < start + submit_reservation_timeout
    → let slot = run ops (reserve_for_submit r token start (some s)).0 in
      (reserve_for_submit q other later slot ≡ (slot, false))
      × (request_generation q later slot ≡ (slot, false))
reservation_excludes token other start later r q s ops h d lt =
    Held-refused token (start + submit_reservation_timeout) _ q other later
      (run-Held token start ops _ d (reserved r token start s h)) lt
