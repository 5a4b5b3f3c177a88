-- ===== src/Driver.antt =====
-- A driver's assignment moves the delivery: the end of `upsertFromProvider` in
-- src/modules/driver/driver.service.ts.
use doot_backend.Base.{ℕ, refl, Bool, true, arith, ◌&&◌, ◌||◌, [], ◌∷◌, if◌then◌else◌}
use doot_backend.Delivery.{
  DeliveryStatus, booked, driver_assigned, same_status, can_transition_delivery,
}
use doot_backend.Delivery.Tables.{StatusEventSource, webhook, tracking}
use doot_backend.Delivery.Lifecycle.{Transition, transition}
use doot_backend.Delivery.Trail.{may_move}
use doot_backend.Delivery.Trail.Rules.{Advances, advances}
use doot_backend.Delivery.Trail.Moves.{IsProper, transition-Advances}
use doot_backend.Payment.Store.{Db, answer, ◌>>◌}

pub data OperationalDataSource : Type 0 where
  provider_poll provider_webhook booking_response system : OperationalDataSource

-- `mapDriverAssignmentLifecycleSource`
abbrev lifecycle_source : OperationalDataSource → StatusEventSource
lifecycle_source OperationalDataSource.provider_webhook = webhook
lifecycle_source OperationalDataSource.system = StatusEventSource.system
lifecycle_source _ = tracking

pub record DriverInput : Type 0 where
  pub delivery_id : ℕ
  pub delivery_status : DeliveryStatus
  pub assigned : Bool
  pub source : OperationalDataSource

abbrev to_driver_assigned : DriverInput → Transition
to_driver_assigned input = record {
  delivery_id = input.delivery_id;
  expected_from_statuses = booked ∷ driver_assigned ∷ [];
  to_status = driver_assigned;
  source = lifecycle_source input.source;
}

-- What follows the write of the assignment.
unfoldable pub move_assigned : DriverInput → Db (Unit {0})
move_assigned input =
    if input.assigned
      && (same_status input.delivery_status booked
          || same_status input.delivery_status driver_assigned)
    then transition true input.delivery_status (to_driver_assigned input) >> answer tt
    else answer tt

to_driver_assigned-IsProper : (input : DriverInput) → IsProper (to_driver_assigned input)
unfolding may_move can_transition_delivery
to_driver_assigned-IsProper input = record {
  all_may_move = (refl, (refl, tt));
  by_otp = ground arith;
}

pub move_assigned-Advances : (input : DriverInput) → Advances (move_assigned input)
unfolding move_assigned
move_assigned-Advances input =
    search (advances, transition-Advances, to_driver_assigned-IsProper) depth 8
