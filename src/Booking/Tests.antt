-- ===== src/Booking/Tests.antt =====
-- Runs of the start of a booking, and instances of what is shown of it.
use doot_backend.Base.{◌≡◌, refl, none, some, [], ◌∷◌, true}
use doot_backend.Delivery.{option_ready, DeliveryRow, customer}
use doot_backend.Delivery.Tables.{no_deliveries}
use doot_backend.Delivery.Lifecycle.{
  find_delivery_row, move_row, record_event, move_found, run_transition,
}
use doot_backend.Booking.Outcome.{answered}
use doot_backend.Booking.{
  BookingOutside, booking_row, create_booking_attempt, begin_booking, confirm, find_latest_booked,
  find_latest_booking,
}
use doot_backend.Booking.Attempts.{begin_booking-once}
use doot_backend.Booking.Unpaid.{IsRefused, confirm-unpaid}
use doot_backend.Payment.Cover.History.{empty_store}
use doot_backend.Payment.Repository.Queries.{find_by_delivery_id}
use doot_backend.Payment.Store.{Store, app_error, booking_in_progress, err, answer}

abbrev ready : DeliveryRow
ready = record { id = 1; customer_id = 7; reference = "DOOT-1"; status = option_ready }

abbrev desk : Store
desk = record empty_store { delivery_tables = record no_deliveries { deliveries = ready ∷ [] } }

abbrev courier : BookingOutside
courier = record {
  booking_id = 70;
  preflight = λ d. answer 50;
  create_booking = λ b.
      answer
        (answered (record { success = true; outcome = none; provider_booking_id = some "order" }));
  known_order = λ r. none;
  reconcile = λ b. answer none;
  pause = answer tt;
}

confirm-unpaid_example : IsRefused (confirm courier 1 7 customer) desk
unfolding find_latest_booked find_latest_booking find_by_delivery_id
confirm-unpaid_example = confirm-unpaid courier 1 7 customer desk (λ t. refl) refl refl refl

abbrev started : Store
started = (begin_booking 70 1 1 50 desk).1

begin_booking-once_example :
    begin_booking 71 1 2 50 started ≡ (err (app_error booking_in_progress 409), started)
unfolding begin_booking run_transition find_delivery_row move_found move_row record_event
    create_booking_attempt
begin_booking-once_example =
    begin_booking-once 70 71 1 1 2 50 50 desk started (booking_row 70 1 1 50) refl
