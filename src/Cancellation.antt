-- ===== src/Cancellation.antt =====
-- Cancelling a delivery: which deliveries, what a provider's answer means, and the refund that
-- follows. src/modules/cancellation.
pub mod Outcome
pub mod Refunding
pub mod Permission
pub mod Remaining
pub mod Records
pub mod Service
pub mod Steps
pub mod Covered
mod Tests
use doot_backend.Base.{Bool, true, false, List, [], ◌∷◌, Option, none, some, not, if◌then◌else◌}
use doot_backend.Delivery.Tables.{ProviderBookingStatus, pending, booking, booked, failed, unknown}
use doot_backend.Delivery.{
  DeliveryStatus, created, orchestrating, option_ready, includes, cancellable_delivery_statuses,
}

unfoldable pub is_delivery_cancellable : DeliveryStatus → Bool
is_delivery_cancellable status = includes cancellable_delivery_statuses status

pub record Eligibility : Type 0 where
  pub allowed : Bool
  pub local_only : Bool

abbrev pub refused : Eligibility
refused = record { allowed = false; local_only = false }

abbrev by_booking : Option ProviderBookingStatus → Eligibility
by_booking (some booked) = record { allowed = true; local_only = false }
by_booking _ = refused

unfoldable pub can_cancel_with_booking : DeliveryStatus → Option ProviderBookingStatus → Eligibility
unfolding is_delivery_cancellable
can_cancel_with_booking delivery_status booking_status =
    if not (is_delivery_cancellable delivery_status)
    then refused
    else if includes (created ∷ orchestrating ∷ option_ready ∷ []) delivery_status
    then record { allowed = true; local_only = true }
    else by_booking booking_status
