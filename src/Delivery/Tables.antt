-- ===== src/Delivery/Tables.antt =====
-- The tables about deliveries, by the columns that the modelled services read or decide on:
-- prisma/schema.prisma. Texts that are only logged or shown (reasons, metadata) are left out.
use doot_backend.Base.{ℕ, Bool, Option, String, List, []}
use doot_backend.Delivery.{DeliveryStatus, DeliveryRow}
use doot_backend.Errors.{ErrorCode}
use doot_backend.Payment.Number.{Number}

pub data StatusEventSource : Type 0 where
  system customer admin provider webhook orchestration booking otp tracking : StatusEventSource

-- A row of `DeliveryStatusEvent`; the first event of a delivery comes from no status.
pub record StatusEvent : Type 0 where
  pub delivery_id : ℕ
  pub from_status : Option DeliveryStatus
  pub to_status : DeliveryStatus
  pub source : StatusEventSource

-- The contact phone of a `DeliveryPickup` or a `DeliveryDrop`.
pub record Contact : Type 0 where
  pub delivery_id : ℕ
  pub phone_country_code : Option String
  pub phone_number : Option String

pub data DeliveryOtpType : Type 0 where
  pickup delivery : DeliveryOtpType

pub record DeliveryOtp : Type 0 where
  pub id : ℕ
  pub delivery_id : ℕ
  pub otp_type : DeliveryOtpType
  pub code_hash : String
  pub expires_at : ℕ
  pub attempts : ℕ
  pub max_attempts : ℕ
  pub consumed_at : Option ℕ
  pub created_at : ℕ

pub data TrackingPointSource : Type 0 where
  provider_poll provider_webhook system : TrackingPointSource

-- A coordinate to the seven digits of its column: ten-millionths of a degree from the equator or
-- the zero meridian, on either side.
pub data Degrees : Type 0 where
  plus minus : ℕ → Degrees

pub record TrackingPoint : Type 0 where
  pub delivery_id : ℕ
  pub provider_id : ℕ
  pub provider_event_id : Option String
  pub latitude : Option Degrees
  pub longitude : Option Degrees
  pub provider_status : Option String
  pub source : TrackingPointSource

pub data OrchestrationRequestStatus : Type 0 where
  running completed failed : OrchestrationRequestStatus

pub record OrchestrationRequest : Type 0 where
  pub id : ℕ
  pub delivery_id : ℕ
  pub attempt_number : ℕ
  pub status : OrchestrationRequestStatus

pub data ProviderBookingStatus : Type 0 where
  pending booking booked failed unknown : ProviderBookingStatus

pub record ProviderBooking : Type 0 where
  pub id : ℕ
  pub delivery_id : ℕ
  pub attempt_number : ℕ
  pub orchestration_request_id : ℕ
  pub status : ProviderBookingStatus
  pub provider_order_id : Option String
  pub unknown_outcome : Bool
  pub failure_code : Option ErrorCode

pub data CancellationStatus : Type 0 where
  requested processing cancelled rejected unknown : CancellationStatus

-- A row of `DeliveryCancellation`; its id is a text, which the key of the refund is built from.
pub record DeliveryCancellation : Type 0 where
  pub id : String
  pub delivery_id : ℕ
  pub provider_booking_id : Option ℕ
  pub attempt_number : ℕ
  pub status : CancellationStatus
  pub created_at : ℕ

-- `CancellationResponsePayload`; of the refund its id, if it has one, and its amount.
pub record CancellationResponse : Type 0 where
  pub delivery_id : ℕ
  pub delivery_status : DeliveryStatus
  pub cancellation_id : String
  pub cancellation_status : CancellationStatus
  pub refund : Option (Option ℕ × Number)

-- A row of `CancellationIdempotencyKey`.
pub record CancellationKey : Type 0 where
  pub customer_id : ℕ
  pub key : String
  pub request_hash : String
  pub delivery_id : ℕ
  pub response_payload : CancellationResponse

pub record DeliveryTables : Type 0 where
  pub deliveries : List DeliveryRow
  pub status_events : List StatusEvent
  pub pickups : List Contact
  pub drops : List Contact
  pub otps : List DeliveryOtp
  pub tracking_points : List TrackingPoint
  pub orchestration_requests : List OrchestrationRequest
  pub bookings : List ProviderBooking
  pub cancellations : List DeliveryCancellation
  pub cancellation_keys : List CancellationKey

abbrev pub no_deliveries : DeliveryTables
no_deliveries = record {
  deliveries = [];
  status_events = [];
  pickups = [];
  drops = [];
  otps = [];
  tracking_points = [];
  orchestration_requests = [];
  bookings = [];
  cancellations = [];
  cancellation_keys = [];
}
