-- ===== src/Operations.antt =====
-- The services that move deliveries, together on one database: src/modules/delivery, otp, tracking,
-- driver, orchestration, booking and cancellation under src/modules.
-- The simulator for development, src/modules/dev-delivery-simulate, is not among them.
pub mod Log
pub mod Events
mod Tests
use doot_backend.Base.{ℕ, String, []}
use doot_backend.Delivery.{DeliveryStatus, UserRole}
use doot_backend.Delivery.Tables.{no_deliveries, OrchestrationRequest}
use doot_backend.Delivery.Lifecycle.{NewDelivery, create_delivery}
use doot_backend.Delivery.Trail.Rules.{Advances}
use doot_backend.Otp.Service.{
  OtpOutside, OtpRequest, generate_pickup_otp, verify_pickup_otp, generate_delivery_otp,
  verify_delivery_otp,
}
use doot_backend.Tracking.{
  TrackingOutside, TrackingInput, WebhookEvent, ingest_from_poll, ingest_from_webhook,
}
use doot_backend.Driver.{DriverInput, move_assigned}
use doot_backend.Orchestration.{OrchestrationOutside, orchestrate}
use doot_backend.Booking.{BookingOutside, confirm}
use doot_backend.Booking.Steps as Booking_steps
use doot_backend.Cancellation.Records.{CancelOutside, CancelRequest}
use doot_backend.Cancellation.Service.{cancel}
use doot_backend.Cancellation.Steps as Cancellation_steps
use doot_backend.Payment.Store.{Store}

-- A request to one of the services, with what it takes from outside. What others commit while it
-- waits is taken to follow the diagram too, which is what these calls themselves do.
pub data Request : Type 1 where
  create : NewDelivery → Request
  send_pickup_code send_delivery_code : (o : OtpOutside) → Advances (o.pause) → OtpRequest → Request
  check_pickup_code check_delivery_code :
      (o : OtpOutside) → Advances (o.pause) → OtpRequest → String → Request
  poll_tracking : (o : TrackingOutside) → Advances (o.pause) → TrackingInput → Request
  tracking_webhook :
      (o : TrackingOutside) → Advances (o.pause) → ℕ → DeliveryStatus → ℕ → WebhookEvent → Request
  assign_driver : DriverInput → Request
  orchestrate_delivery :
      (o : OrchestrationOutside)
      → Advances (o.pause)
      → ((r : OrchestrationRequest) → Advances (o.evaluate r))
      → ℕ
      → ℕ
      → UserRole
      → Request
  confirm_booking :
      (o : BookingOutside) → Booking_steps.IsSteadyOutside o → ℕ → ℕ → UserRole → Request
  cancel_delivery :
      (o : CancelOutside) → Cancellation_steps.IsSteadyOutside o → CancelRequest → Request

-- The store after a request, whatever it answers or throws.
unfoldable pub serve : Request → Store → Store
serve (create input) s = (create_delivery input s).1
serve (send_pickup_code o _ input) s = (generate_pickup_otp o input s).1
serve (send_delivery_code o _ input) s = (generate_delivery_otp o input s).1
serve (check_pickup_code o _ input guess) s = (verify_pickup_otp o input guess s).1
serve (check_delivery_code o _ input guess) s = (verify_delivery_otp o input guess s).1
serve (poll_tracking o _ input) s = (ingest_from_poll o input s).1
serve (tracking_webhook o _ k status provider event) s =
    (ingest_from_webhook o k status provider event s).1
serve (assign_driver input) s = (move_assigned input s).1
serve (orchestrate_delivery o _ _ k user role) s = (orchestrate o k user role s).1
serve (confirm_booking o _ k user role) s = (confirm o k user role s).1
serve (cancel_delivery o _ input) s = (cancel o input s).1

-- Requests that follow each other.
pub data Served (s : Store) : Store → Type 1 where
  start : Served s s
  next : {t : Store} → Served s t → (r : Request) → Served s (serve r t)
