-- ===== src/Booking.antt =====
-- Booking the chosen option with its provider: the bookings of
-- src/modules/booking/booking.repository.ts and `confirm` of src/modules/booking/booking.service.ts.
-- Parameters are: the checks of the option, the provider, the quote and the policy between the
-- payment's check and the start of the attempt; the provider's answer; and the idempotency keys.
pub mod Outcome
pub mod Steps
pub mod Attempts
pub mod Unpaid
mod Tests
use doot_backend.Base.{
  ℕ, ◌+◌, Bool, true, false, not, ◌&&◌, ◌||◌, Option, none, some, is_some, get_or, or_else, String,
  List, [], ◌∷◌, ◌==◌, if◌then◌else◌, any,
}
use doot_backend.Base.Table.{find, update, latest_by}
use doot_backend.Delivery.{DeliveryStatus, option_ready, same_status, UserRole, DeliveryRow}
use doot_backend.Delivery.Tables.{booking, ProviderBookingStatus, ProviderBooking, DeliveryTables}
use doot_backend.Delivery.Lifecycle.{
  write_tables, load_delivery, find_delivery_row, Transition, run_transition,
}
use doot_backend.Booking.Outcome.{
  BookingOutcome, booked, failed, unknown, Resolved, BookingReply, answered, thrown,
  resolve_booking,
}
use doot_backend.Payment.Types.{PaymentStatus, Payment}
use doot_backend.Payment.Transitions.{payment_in}
use doot_backend.Payment.Repository.Queries.{find_by_delivery_id}
use doot_backend.Payment.Store.{
  Store, Failure, app_error, booking_in_progress, booking_not_allowed, booking_not_found,
  booking_failed, booking_unknown, payment_required, provider_booking_reconciliation_required,
  unique_violation, attempt_number, row_missing, Result, Db, answer, throw, read, or_throw,
  catching, with_transaction, ◌>>=◌, ◌>>◌, throw_if,
}

abbrev pub status_is : ProviderBookingStatus → ProviderBookingStatus → Bool
status_is ProviderBookingStatus.pending ProviderBookingStatus.pending = true
status_is ProviderBookingStatus.booking ProviderBookingStatus.booking = true
status_is ProviderBookingStatus.booked ProviderBookingStatus.booked = true
status_is ProviderBookingStatus.failed ProviderBookingStatus.failed = true
status_is ProviderBookingStatus.unknown ProviderBookingStatus.unknown = true
status_is _ _ = false

unfoldable pub find_latest_booking : ℕ → Store → Option ProviderBooking
find_latest_booking k s =
    latest_by (λ b. b.attempt_number) (λ b. b.delivery_id == k) s.delivery_tables.bookings

unfoldable pub find_latest_booked : ℕ → Store → Option ProviderBooking
find_latest_booked k s =
    latest_by (λ b. b.attempt_number)
      (λ b. b.delivery_id == k && status_is ProviderBookingStatus.booked b.status)
      s.delivery_tables.bookings

unfoldable pub find_active_booking : ℕ → Store → Option ProviderBooking
find_active_booking k s =
    latest_by (λ b. b.attempt_number)
      (λ b.
        b.delivery_id == k
        && (status_is ProviderBookingStatus.pending b.status
            || status_is ProviderBookingStatus.booking b.status))
      s.delivery_tables.bookings

abbrev attempt_of : Option ProviderBooking → ℕ
attempt_of none = 0
attempt_of (some b) = b.attempt_number

unfoldable pub get_next_booking_attempt : ℕ → Store → ℕ
unfolding find_latest_booking
get_next_booking_attempt k s = attempt_of (find_latest_booking k s) + 1

abbrev pub booking_row : ℕ → ℕ → ℕ → ℕ → ProviderBooking
booking_row new_id k n request = record {
  id = new_id;
  delivery_id = k;
  attempt_number = n;
  orchestration_request_id = request;
  status = ProviderBookingStatus.booking;
  provider_order_id = none;
  unknown_outcome = false;
  failure_code = none;
}

-- `createBookingAttempt`: an attempt of a delivery stands once.
unfoldable pub create_booking_attempt : ℕ → ℕ → ℕ → ℕ → Db ProviderBooking
create_booking_attempt new_id k n request = do
  taken ←
      read (λ s. any (λ b. b.delivery_id == k && b.attempt_number == n) s.delivery_tables.bookings)
  throw_if taken (unique_violation attempt_number)
  write_tables (λ t. record t { bookings = booking_row new_id k n request ∷ t.bookings })
  answer (booking_row new_id k n request)

abbrev pub final_status : BookingOutcome → ProviderBookingStatus
final_status booked = ProviderBookingStatus.booked
final_status unknown = ProviderBookingStatus.unknown
final_status failed = ProviderBookingStatus.failed

abbrev is_unknown : BookingOutcome → Bool
is_unknown unknown = true
is_unknown _ = false

abbrev is_booked : BookingOutcome → Bool
is_booked booked = true
is_booked _ = false

abbrev pub finalized : Resolved → ProviderBooking → ProviderBooking
finalized resolved b = record b {
  status = final_status resolved.outcome;
  provider_order_id = resolved.provider_order_id;
  unknown_outcome = is_unknown resolved.outcome;
  failure_code = resolved.failure_code;
}

unfoldable pub finalize_booking : ℕ → Resolved → Db ProviderBooking
finalize_booking k resolved = do
  write_tables (λ t. record t { bookings = update (λ b. b.id) k (finalized resolved) t.bookings })
  found ← read (λ s. find (λ b. b.id) k s.delivery_tables.bookings)
  or_throw found row_missing

abbrev pub to_booking : ℕ → Transition
to_booking k = record {
  delivery_id = k;
  expected_from_statuses = option_ready ∷ [];
  to_status = DeliveryStatus.booking;
  source = booking;
}

abbrev pub from_booking : ℕ → DeliveryStatus → Transition
from_booking k to = record {
  delivery_id = k;
  expected_from_statuses = DeliveryStatus.booking ∷ [];
  to_status = to;
  source = booking;
}

-- The transaction that starts an attempt.
unfoldable pub begin_booking : ℕ → ℕ → ℕ → ℕ → Db ProviderBooking
begin_booking new_id k n request = with_transaction (do
  moved ← run_transition (to_booking k)
  throw_if (not (is_some moved)) (app_error booking_in_progress 409)
  create_booking_attempt new_id k n request)

-- The delivery after the provider's answer; nothing moves while the outcome is unknown.
abbrev pub move_booked : ℕ → BookingOutcome → Db (Unit {0})
move_booked k booked = run_transition (from_booking k DeliveryStatus.booked) >> answer tt
move_booked k failed = run_transition (from_booking k DeliveryStatus.failed) >> answer tt
move_booked k unknown = answer tt

-- `finalizeBookingAttempt`
unfoldable pub finalize_booking_attempt : ℕ → ProviderBooking → Resolved → Db ProviderBooking
finalize_booking_attempt k b resolved =
    with_transaction
      (do row ← finalize_booking b.id resolved; move_booked k resolved.outcome; answer row)

-- What `confirm` takes from outside: the id that is drawn, the checks that pass with the request of
-- the chosen option or throw, the reply of the provider, the order that may be known of a booking
-- whose call threw (`enrichShiprocketUnknownBookingOutcome`), what asking the provider for an unknown
-- booking finds (nothing, if it throws or is not reconciled), and what others commit between steps.
pub record BookingOutside : Type 0 where
  pub booking_id : ℕ
  pub preflight : DeliveryRow → Db ℕ
  pub create_booking : ProviderBooking → Db BookingReply
  pub known_order : Resolved → Option String
  pub reconcile : ProviderBooking → Db (Option Resolved)
  pub pause : Db (Unit {0})

pub record ConfirmAnswer : Type 0 where
  pub delivery_status : DeliveryStatus
  pub booking : ProviderBooking

abbrev status_of : Option DeliveryRow → DeliveryStatus → DeliveryStatus
status_of none old = old
status_of (some d) old = d.status

-- `refreshedDelivery?.status ?? delivery.status`
abbrev confirm_answer : DeliveryRow → ProviderBooking → Db ConfirmAnswer
confirm_answer d b = do
  refreshed ← read (find_delivery_row d.id)
  answer (record { delivery_status = status_of refreshed d.status; booking = b })

-- `tryReconcileUnknownBooking` of an unknown booking: without an order there is nothing to ask for,
-- and only a reconciled answer BOOKED ends the attempt.
unfoldable pub try_reconcile_unknown_booking :
    BookingOutside → ℕ → ProviderBooking → Db (Option ProviderBooking)
try_reconcile_unknown_booking o k b =
    if is_some b.provider_order_id
    then (do
      found ← o.reconcile b
      elim found as (λ _. Db (Option ProviderBooking)) [
        | none ↦ answer none
        | some resolved ↦
            if is_booked resolved.outcome
            then (do row ← finalize_booking_attempt k b resolved; answer (some row))
            else answer none
      ])
    else answer none

-- The resolved outcome of the provider's reply.
abbrev pub resolve_reply : BookingOutside → BookingReply → Resolved
resolve_reply o (answered result) = resolve_booking (answered result)
resolve_reply o (thrown failure) =
    let r = resolve_booking (thrown failure) in record r { provider_order_id = o.known_order r }

abbrev is_paid : Option Payment → Bool
is_paid none = false
is_paid (some p) = payment_in (PaymentStatus.paid ∷ []) p.status

-- What `confirm` throws after the attempt is finalized.
abbrev finish_confirm : ConfirmAnswer → Db ConfirmAnswer
finish_confirm a = do
  throw_if (status_is ProviderBookingStatus.failed a.booking.status)
      (app_error (get_or a.booking.failure_code booking_failed) 422)
  throw_if (status_is ProviderBookingStatus.unknown a.booking.status)
      (app_error booking_unknown 503)
  answer a

-- `confirm` from the start of the attempt on.
unfoldable pub attempt_booking : BookingOutside → DeliveryRow → ProviderBooking → Db ConfirmAnswer
attempt_booking o d b = do
  reply ← o.create_booking b
  row ← finalize_booking_attempt d.id b (resolve_reply o reply)
  o.pause
  response ← confirm_answer d row
  finish_confirm response

-- `confirm` from the check of the payment.
unfoldable pub confirm_ready : BookingOutside → DeliveryRow → Db ConfirmAnswer
confirm_ready o d = do
  payment ← read (find_by_delivery_id d.id)
  throw_if (not (is_paid payment)) (app_error payment_required 422)
  request ← o.preflight d
  o.pause
  n ← read (get_next_booking_attempt d.id)
  o.pause
  b ← begin_booking o.booking_id d.id n request
  attempt_booking o d b

-- `confirm` of a delivery whose latest booking is unknown.
unfoldable pub confirm_unknown : BookingOutside → DeliveryRow → ProviderBooking → Db ConfirmAnswer
confirm_unknown o d b = do
  reconciled ← try_reconcile_unknown_booking o d.id b
  elim reconciled as (λ _. Db ConfirmAnswer) [
    | some row ↦ confirm_answer d row
    | none ↦ throw (app_error provider_booking_reconciliation_required 409)
  ]

-- `confirm` of a delivery whose latest booking is not unknown.
unfoldable pub confirm_fresh : BookingOutside → DeliveryRow → Db ConfirmAnswer
confirm_fresh o d = do
  active ← read (find_active_booking d.id)
  throw_if (is_some active || same_status d.status DeliveryStatus.booking)
      (app_error booking_in_progress 409)
  throw_if (not (same_status d.status option_ready)) (app_error booking_not_allowed 422)
  confirm_ready o d

-- `confirm` of a delivery that is not booked yet, by its latest booking.
unfoldable pub confirm_open :
    BookingOutside → DeliveryRow → Option ProviderBooking → Db ConfirmAnswer
confirm_open o d none = confirm_fresh o d
confirm_open o d (some b) =
    if status_is ProviderBookingStatus.unknown b.status
    then confirm_unknown o d b
    else confirm_fresh o d

abbrev booked_answer : DeliveryRow → ProviderBooking → ConfirmAnswer
booked_answer d b = record { delivery_status = d.status; booking = b }

-- The booking of a booked delivery, read again when it was not there.
unfoldable pub booked_again :
    BookingOutside → ℕ → DeliveryRow → Option ProviderBooking → Db ConfirmAnswer
booked_again o k d existing = do
  again ← read (find_latest_booked k)
  b ← or_throw (or_else existing again) (app_error booking_not_found 404)
  answer (booked_answer d b)

-- `confirm` by the latest booking that is booked.
unfoldable pub confirm_loaded :
    BookingOutside → ℕ → DeliveryRow → Option ProviderBooking → Db ConfirmAnswer
confirm_loaded o k d existing =
    if same_status d.status DeliveryStatus.booked || is_some existing
    then (do o.pause; booked_again o k d existing)
    else (do o.pause; latest ← read (find_latest_booking k); confirm_open o d latest)

-- `confirm` without an idempotency key. A delivery that is booked answers with its booking.
unfoldable pub confirm : BookingOutside → ℕ → ℕ → UserRole → Db ConfirmAnswer
confirm o k user role = do
  d ← load_delivery k user role
  o.pause
  existing ← read (find_latest_booked k)
  confirm_loaded o k d existing
