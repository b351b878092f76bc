-- ===== src/Variants/Repository/Submission.antt =====
-- The reservation under which a variant is submitted, and the submission's own write.
use learn_loop.Prelude.{
  ℕ, ◌+◌, Option, none, some, String, Bool, true, false, ◌&&◌, str_eq, ltb, ◌==◌, update_one,
}
use learn_loop.States.{VariationStatus}
use learn_loop.Variants.Sessions.{Session, Slot, Reservation, is_live, has_status, is_reservable}

-- `_SUBMIT_RESERVATION_TIMEOUT`, ten minutes in microseconds.
abbrev pub submit_reservation_timeout : ℕ
submit_reservation_timeout = 600000000

-- A token that `uuid4` gave, and whether the reservation was acquired under it.
unfoldable pub reserve_for_submit : ℕ → String → ℕ → Slot → Slot × Bool
reserve_for_submit expected_revision token now =
    update_one
      (λ s.
        is_live s
        && has_status VariationStatus.ready s
        && s.content_revision == expected_revision
        && is_reservable s.submit_reservation now)
      (λ s. record s {
        variation = record (s.variation) {
          submit_reservation =
              some (record { token = token; expires_at = now + submit_reservation_timeout });
        };
        updated_at = now;
      })

abbrev holds_token : String → Option Reservation → Bool
holds_token token none = false
holds_token token (some r) = str_eq r.token token

abbrev is_unexpired : ℕ → Option Reservation → Bool
is_unexpired now none = false
is_unexpired now (some r) = ltb now r.expires_at

abbrev extended : ℕ → Option Reservation → Option Reservation
extended now none = none
extended now (some r) = some (record r { expires_at = now + submit_reservation_timeout })

unfoldable pub renew_reservation : String → ℕ → Slot → Slot × Bool
renew_reservation token now =
    update_one
      (λ s. holds_token token s.submit_reservation && is_unexpired now s.submit_reservation)
      (λ s. record s {
        variation = record (s.variation) { submit_reservation = extended now s.submit_reservation };
        updated_at = now;
      })

unfoldable pub release_reservation : String → ℕ → Slot → Slot × Bool
release_reservation token now =
    update_one (λ s. holds_token token s.submit_reservation)
      (λ s. record s {
        variation = record (s.variation) { submit_reservation = none };
        updated_at = now;
      })

-- `submit_token` is optional; without it the reservation is neither checked nor cleared.
abbrev token_filter : Option String → Session → Bool
token_filter none s = true
token_filter (some token) s = holds_token token s.submit_reservation

abbrev after_submit : Option String → Option Reservation → Option Reservation
after_submit none r = r
after_submit (some token) r = none

unfoldable pub mark_submitted : String → ℕ → Option String → ℕ → Slot → Slot × Bool
mark_submitted admitted_problem_id expected_revision submit_token now =
    update_one
      (λ s. s.content_revision == expected_revision && is_live s && token_filter submit_token s)
      (λ s. record s {
        submit = some (record { submitted_problem_id = admitted_problem_id; success = true });
        variation = record (s.variation) {
          submit_reservation = after_submit submit_token s.submit_reservation;
        };
        updated_at = now;
      })
