-- ===== src/Cancellation/Tests.antt =====
-- Instances of the theorems on cancellations.
use doot_backend.Base.{◌≡◌, refl, ◌≢◌, ◌↔◌, ◌⊎◌, true, false, none, some, [], ◌∷◌}
use doot_backend.Delivery.{
  created, orchestrating, option_ready, booked, cancelled, can_transition_delivery, UserRole,
  DeliveryRow,
}
use doot_backend.Payment.Store.{Store, answer}
use doot_backend.Payment.Service.RefundSteps.{created}
use doot_backend.Payment.Cover.{IsValid}
use doot_backend.Payment.Tests.{shop, shop-IsValid, draws, quiet, quiet-IsFairOutside}
use doot_backend.Delivery.Tables.{ProviderBookingStatus, ProviderBooking, no_deliveries}
use doot_backend.Cancellation.Records.{CancelOutside, CancelRequest}
use doot_backend.Cancellation.Service.{cancel}
use doot_backend.Cancellation.Covered.{IsFairCancel, cancel-Keeps}
use doot_backend.Cancellation.{is_delivery_cancellable, can_cancel_with_booking}
use doot_backend.Cancellation.Permission.{can_cancel_sound}
use doot_backend.Cancellation.Outcome.{
  Outcome, timeout, adapter_error, Reply, answered, thrown, resolve, IsConfirmed, resolve-cancelled,
}
use doot_backend.Cancellation.Refunding.{Cancelled}

can_cancel_sound_example :
    (can_transition_delivery booked cancelled ≡ true)
    × (booked ≢ cancelled)
    × ((((can_cancel_with_booking booked (some ProviderBookingStatus.booked)).local_only ≡ true)
          × ((booked ≡ created) ⊎ (booked ≡ orchestrating) ⊎ (booked ≡ option_ready)))
        ⊎ (((can_cancel_with_booking booked (some ProviderBookingStatus.booked)).local_only ≡ false)
            × (booked ≢ created)
            × (booked ≢ orchestrating)
            × (booked ≢ option_ready)
            × (some ProviderBookingStatus.booked ≡ some ProviderBookingStatus.booked)))
unfolding can_cancel_with_booking is_delivery_cancellable
can_cancel_sound_example = can_cancel_sound booked (some ProviderBookingStatus.booked) refl

abbrev timed_out : Reply
timed_out = thrown (adapter_error timeout "no answer")

resolve-cancelled_example :
    ((resolve timed_out).outcome ≡ Outcome.cancelled) ↔ IsConfirmed timed_out
resolve-cancelled_example = resolve-cancelled timed_out

abbrev cancellation : Cancelled
cancellation = record {
  delivery_id = 7;
  cancellation_id = "c-1";
  reason_code = "OTHER";
  reason_message = none;
}

abbrev booked_delivery : DeliveryRow
booked_delivery = record { id = 7; customer_id = 3; reference = "DOOT-7"; status = booked }

abbrev booking_of_delivery : ProviderBooking
booking_of_delivery = record {
  id = 70;
  delivery_id = 7;
  attempt_number = 1;
  orchestration_request_id = 50;
  status = ProviderBookingStatus.booked;
  provider_order_id = some "order-70";
  unknown_outcome = false;
  failure_code = none;
}

-- The paid shop, with the delivery booked.
abbrev booked_shop : Store
booked_shop = record shop {
  delivery_tables = record no_deliveries {
    deliveries = booked_delivery ∷ [];
    bookings = booking_of_delivery ∷ [];
  };
}

booked_shop-IsValid : IsValid booked_shop
booked_shop-IsValid = record { sound = shop-IsValid.sound; owned = shop-IsValid.owned }

abbrev courier : CancelOutside
courier = record {
  payments = quiet;
  draws = draws;
  now = 100;
  cancellation_id = "c-1";
  provider_eligible = λ b. true;
  order_to_cancel = λ b. b.provider_order_id;
  cancel_booking = λ order. answer (
      answered (record {
        success = true;
        outcome = none;
        provider_cancellation_id = none;
        reason = none;
        cancelled_at = none;
      }));
  pause = answer tt;
}

courier-IsFairCancel : IsFairCancel courier
courier-IsFairCancel = record {
  payments = quiet-IsFairOutside;
  cancel_booking = λ order s v. v;
  pause = λ s v. v;
}

abbrev cancel_request_of_customer : CancelRequest
cancel_request_of_customer = record {
  delivery_id = 7;
  user_id = 3;
  role = UserRole.customer;
  reason_code = "OTHER";
  reason_message = none;
  idempotency_key = some "k-1";
  request_hash = "h-1";
}

cancel-Keeps_example : IsValid (cancel courier cancel_request_of_customer booked_shop).1
cancel-Keeps_example =
    cancel-Keeps courier cancel_request_of_customer booked_shop courier-IsFairCancel
      booked_shop-IsValid
