-- ===== src/Booking/Steps.antt =====
-- What the confirmation of a booking does to the deliveries and their log:
-- src/modules/booking/booking.service.ts.
use doot_backend.Base.{ℕ, refl, Option, none, some}
use doot_backend.Delivery.{DeliveryStatus, can_transition_delivery, UserRole, DeliveryRow}
use doot_backend.Delivery.Tables.{ProviderBooking}
use doot_backend.Delivery.Lifecycle.{load_delivery}
use doot_backend.Delivery.Trail.{may_move}
use doot_backend.Delivery.Trail.Rules.{Advances, advances, Option-Advances}
use doot_backend.Delivery.Trail.Moves.{IsProper, run_transition-Advances}
use doot_backend.Booking.{
  to_booking, from_booking, move_booked, create_booking_attempt, finalize_booking, begin_booking,
  finalize_booking_attempt, BookingOutside, try_reconcile_unknown_booking, attempt_booking,
  confirm_ready, confirm_unknown, confirm_fresh, confirm_open, confirm_loaded, booked_again,
  confirm,
}
use doot_backend.Booking.Outcome.{BookingOutcome, booked, failed, unknown, Resolved}

to_booking-IsProper : (k : ℕ) → IsProper (to_booking k)
unfolding may_move can_transition_delivery
to_booking-IsProper k = record { all_may_move = (refl, tt); by_otp = refl }

to_booked-IsProper : (k : ℕ) → IsProper (from_booking k DeliveryStatus.booked)
unfolding may_move can_transition_delivery
to_booked-IsProper k = record { all_may_move = (refl, tt); by_otp = refl }

to_failed-IsProper : (k : ℕ) → IsProper (from_booking k DeliveryStatus.failed)
unfolding may_move can_transition_delivery
to_failed-IsProper k = record { all_may_move = (refl, tt); by_otp = refl }

create_attempt-Advances :
    (new_id k n request : ℕ) → Advances (create_booking_attempt new_id k n request)
unfolding create_booking_attempt
create_attempt-Advances new_id k n request = search advances depth 8

finalize_booking-Advances : (k : ℕ) (resolved : Resolved) → Advances (finalize_booking k resolved)
unfolding finalize_booking
finalize_booking-Advances k resolved = search advances depth 8

begin_booking-Advances : (new_id k n request : ℕ) → Advances (begin_booking new_id k n request)
unfolding begin_booking
begin_booking-Advances new_id k n request =
    search (advances, create_attempt-Advances, run_transition-Advances, to_booking-IsProper) depth 8

move_booked-Advances : (k : ℕ) (outcome : BookingOutcome) → Advances (move_booked k outcome)
move_booked-Advances k booked = search (advances, run_transition-Advances, to_booked-IsProper)
move_booked-Advances k failed = search (advances, run_transition-Advances, to_failed-IsProper)
move_booked-Advances k unknown = search advances

finalize_attempt-Advances :
    (k : ℕ) (b : ProviderBooking) (resolved : Resolved)
    → Advances (finalize_booking_attempt k b resolved)
unfolding finalize_booking_attempt
finalize_attempt-Advances k b resolved =
    search (advances, finalize_booking-Advances, move_booked-Advances) depth 8

-- What is assumed of the others that commit during a confirmation: they too follow the diagram.
pub record IsSteadyOutside (o : BookingOutside) : Type 0 where
  pub preflight : (d : DeliveryRow) → Advances (o.preflight d)
  pub create_booking : (b : ProviderBooking) → Advances (o.create_booking b)
  pub reconcile : (b : ProviderBooking) → Advances (o.reconcile b)
  pub pause : Advances (o.pause)

module _ (o : BookingOutside) (steady : IsSteadyOutside o) where
  try_reconcile-Advances :
      (k : ℕ) (b : ProviderBooking) → Advances (try_reconcile_unknown_booking o k b)
  unfolding try_reconcile_unknown_booking
  try_reconcile-Advances k b =
      search (advances, Option-Advances, steady.reconcile, finalize_attempt-Advances) depth 10

  attempt_booking-Advances :
      (d : DeliveryRow) (b : ProviderBooking) → Advances (attempt_booking o d b)
  unfolding attempt_booking
  attempt_booking-Advances d b =
      search (advances, steady.create_booking, steady.pause, finalize_attempt-Advances) depth 12

  confirm_ready-Advances : (d : DeliveryRow) → Advances (confirm_ready o d)
  unfolding confirm_ready
  confirm_ready-Advances d =
      search
        (advances, steady.preflight, steady.pause, begin_booking-Advances, attempt_booking-Advances)
        depth 12

  confirm_unknown-Advances :
      (d : DeliveryRow) (b : ProviderBooking) → Advances (confirm_unknown o d b)
  unfolding confirm_unknown
  confirm_unknown-Advances d b = search (advances, Option-Advances, try_reconcile-Advances) depth 10

  confirm_fresh-Advances : (d : DeliveryRow) → Advances (confirm_fresh o d)
  unfolding confirm_fresh
  confirm_fresh-Advances d = search (advances, confirm_ready-Advances) depth 12

  confirm_open-Advances :
      (d : DeliveryRow) (latest : Option ProviderBooking) → Advances (confirm_open o d latest)
  unfolding confirm_open
  confirm_open-Advances d none = confirm_fresh-Advances d
  confirm_open-Advances d (some b) =
      search (advances, confirm_unknown-Advances, confirm_fresh-Advances)

  pub confirm-Advances : (k user : ℕ) (role : UserRole) → Advances (confirm o k user role)
  unfolding confirm load_delivery confirm_loaded booked_again
  confirm-Advances k user role = search (advances, steady.pause, confirm_open-Advances) depth 20
