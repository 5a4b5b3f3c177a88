-- ===== src/Cancellation/Permission.antt =====
-- `canCancelWithBooking` of src/modules/cancellation/cancellation.eligibility.ts against the
-- transition table.
use doot_backend.Base.{◌≡◌, ◌≢◌, ◌⊎◌, true, false, Option, some, arith}
use doot_backend.Delivery.{
  DeliveryStatus, created, orchestrating, option_ready, cancelled, can_transition_delivery,
}
use doot_backend.Delivery.Tables.{ProviderBookingStatus}
use doot_backend.Cancellation.{is_delivery_cancellable, can_cancel_with_booking}

-- A delivery that may be cancelled is one that the transition table lets move to `cancelled`, and
-- one past the choice of an option needs a booking that is known to stand: then the provider is
-- asked. Only before that is the cancellation local.
pub can_cancel_sound :
    (s : DeliveryStatus) (b : Option ProviderBookingStatus)
    → (can_cancel_with_booking s b).allowed ≡ true
    → (can_transition_delivery s cancelled ≡ true)
      × (s ≢ cancelled)
      × ((((can_cancel_with_booking s b).local_only ≡ true)
            × ((s ≡ created) ⊎ (s ≡ orchestrating) ⊎ (s ≡ option_ready)))
          ⊎ (((can_cancel_with_booking s b).local_only ≡ false)
              × (s ≢ created)
              × (s ≢ orchestrating)
              × (s ≢ option_ready)
              × (b ≡ some ProviderBookingStatus.booked)))
unfolding can_cancel_with_booking is_delivery_cancellable can_transition_delivery
can_cancel_sound s b h = ground arith
