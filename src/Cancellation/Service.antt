-- ===== src/Cancellation/Service.antt =====
-- `cancel` of src/modules/cancellation/cancellation.service.ts.
use doot_backend.Base.{
  ℕ, Bool, true, false, not, ◌&&◌, ◌||◌, Option, none, some, is_some, String, [], ◌∷◌, ◌==◌,
  if◌then◌else◌,
}
use text.Mathlib.Text.{◌==◌ as str_eq}
use doot_backend.Delivery.{DeliveryStatus, DeliveryRow}
use doot_backend.Delivery.Tables.{
  customer, ProviderBooking, ProviderBookingStatus, CancellationStatus, cancelled, rejected,
  unknown, DeliveryCancellation, CancellationResponse, CancellationKey,
}
use doot_backend.Delivery.Lifecycle.{load_delivery, find_delivery_row, Transition, transition}
use doot_backend.Booking.{status_is, find_latest_booking}
use doot_backend.Cancellation.{can_cancel_with_booking}
use doot_backend.Cancellation.Outcome
use doot_backend.Cancellation.Outcome.{Outcome, Resolved, Reply, resolve}
use doot_backend.Cancellation.Refunding.{Summary, refund_prepaid_after_cancellation}
use doot_backend.Payment.Number.{Number}
use doot_backend.Payment.Store.{
  app_error, idempotency_conflict, cancellation_in_progress, cancellation_not_allowed,
  cancellation_unknown, provider_operation_unavailable, provider_cancellation_rejected,
  provider_booking_reconciliation_required, Db, answer, throw, read, ◌>>=◌, ◌>>◌, throw_if,
}
use doot_backend.Cancellation.Records.{
  CancelRequest, CancelOutside, has_status, find_latest_cancellation, find_processing,
  get_next_cancellation_attempt, booking_status_of, create_cancellation, finalize_cancellation,
  find_idempotency, save_idempotency,
}

-- The stored answer, for the same request only.
abbrev pub replay_cancel : CancelRequest → CancellationKey → Db CancellationResponse
replay_cancel input cached = do
  throw_if
      (not (str_eq cached.request_hash input.request_hash)
        || not (cached.delivery_id == input.delivery_id))
      (app_error idempotency_conflict 409)
  answer cached.response_payload

abbrev rejected_outcome : Outcome
rejected_outcome = Outcome.Outcome.rejected

abbrev pub ask_for : CancelOutside → Option String → Db Outcome
ask_for o none = answer rejected_outcome
ask_for o (some order) =
    if str_eq order ""
    then answer rejected_outcome
    else (do reply ← o.cancel_booking order; answer (resolve reply).outcome)

-- The provider is asked for the order, or the cancellation is rejected without one.
unfoldable pub ask_provider : CancelOutside → ProviderBooking → Db Outcome
ask_provider o b = ask_for o (o.order_to_cancel b)

unfoldable pub resolve_cancellation :
    CancelOutside → Bool → Option ProviderBooking → DeliveryCancellation → Db Outcome
resolve_cancellation o true b c = answer Outcome.Outcome.cancelled
resolve_cancellation o false none c =
    finalize_cancellation c rejected >> throw (app_error provider_operation_unavailable 422)
resolve_cancellation o false (some b) c =
    if o.provider_eligible b
    then ask_provider o b
    else finalize_cancellation c rejected >> throw (app_error provider_operation_unavailable 422)

-- `finalStatus`
abbrev pub final_status : Outcome → CancellationStatus
final_status Outcome.Outcome.cancelled = cancelled
final_status Outcome.Outcome.unknown = unknown
final_status Outcome.Outcome.rejected = rejected

abbrev pub to_cancelled : DeliveryRow → Transition
to_cancelled d = record {
  delivery_id = d.id;
  expected_from_statuses = d.status ∷ [];
  to_status = DeliveryStatus.cancelled;
  source = customer;
}

abbrev refund_of : Option Summary → Option (Option ℕ × Number)
refund_of none = none
refund_of (some r) = some (r.refund_id, r.amount)

-- The delivery and the payment after a cancellation that went through.
unfoldable pub carry_out :
    CancelOutside → CancelRequest → DeliveryRow → Outcome → Db (Option Summary)
carry_out o input d Outcome.Outcome.cancelled = do
  transition true d.status (to_cancelled d)
  o.pause
  refund_prepaid_after_cancellation o.payments o.draws (record {
    delivery_id = d.id;
    cancellation_id = o.cancellation_id;
    reason_code = input.reason_code;
    reason_message = input.reason_message;
  })
carry_out o input d _ = answer none

abbrev status_of : Option DeliveryRow → DeliveryStatus → DeliveryStatus
status_of none old = old
status_of (some d) old = d.status

abbrev response_of :
    DeliveryRow
    → Option DeliveryRow
    → DeliveryCancellation
    → Outcome
    → Option Summary
    → CancellationResponse
response_of d refreshed c outcome refund = record {
  delivery_id = d.id;
  delivery_status = status_of refreshed d.status;
  cancellation_id = c.id;
  cancellation_status = final_status outcome;
  refund = refund_of refund;
}

abbrev is_outcome : Outcome → Outcome → Bool
is_outcome a b = has_status (final_status a) (final_status b)

-- The answer, kept under its key, and what `cancel` throws after it.
unfoldable pub respond_cancel :
    CancelRequest
    → DeliveryRow
    → DeliveryCancellation
    → Outcome
    → Option Summary
    → Db CancellationResponse
respond_cancel input d c outcome refund = do
  refreshed ← read (find_delivery_row d.id)
  save_idempotency input (response_of d refreshed c outcome refund)
  throw_if (is_outcome outcome rejected_outcome) (app_error provider_cancellation_rejected 422)
  throw_if (is_outcome outcome Outcome.Outcome.unknown) (app_error cancellation_unknown 503)
  answer (response_of d refreshed c outcome refund)

-- `cancel` from the final outcome on.
unfoldable pub finish_cancel :
    CancelOutside
    → CancelRequest
    → DeliveryRow
    → DeliveryCancellation
    → Outcome
    → Db CancellationResponse
finish_cancel o input d c outcome = do
  finalize_cancellation c (final_status outcome)
  o.pause
  refund ← carry_out o input d outcome
  o.pause
  respond_cancel input d c outcome refund

abbrev is_unknown_booking : Option ProviderBooking → Bool
is_unknown_booking none = false
is_unknown_booking (some b) = status_is ProviderBookingStatus.unknown b.status

abbrev is_unknown_cancellation : Option DeliveryCancellation → Bool
is_unknown_cancellation none = false
is_unknown_cancellation (some c) = has_status unknown c.status

-- `cancel` from the start of an attempt on.
unfoldable pub attempt_cancel :
    CancelOutside
    → CancelRequest
    → DeliveryRow
    → Bool
    → Option ProviderBooking
    → Db CancellationResponse
attempt_cancel o input d local_only b = do
  n ← read (get_next_cancellation_attempt d.id)
  o.pause
  c ← create_cancellation o d.id b n
  outcome ← resolve_cancellation o local_only b c
  o.pause
  finish_cancel o input d c outcome

-- `cancel` of a delivery that may be cancelled: no earlier cancellation is unknown or underway.
unfoldable pub start_cancel :
    CancelOutside
    → CancelRequest
    → DeliveryRow
    → Bool
    → Option ProviderBooking
    → Db CancellationResponse
start_cancel o input d local_only b = do
  latest ← read (find_latest_cancellation d.id)
  throw_if (is_unknown_cancellation latest) (app_error cancellation_unknown 409)
  underway ← read (find_processing d.id)
  throw_if (is_some underway) (app_error cancellation_in_progress 409)
  attempt_cancel o input d local_only b

-- `cancel` of a loaded delivery, by its latest booking.
unfoldable pub cancel_loaded :
    CancelOutside → CancelRequest → DeliveryRow → Option ProviderBooking → Db CancellationResponse
cancel_loaded o input d b = do
  throw_if
      (not (can_cancel_with_booking d.status (booking_status_of b)).allowed && is_unknown_booking b)
      (app_error provider_booking_reconciliation_required 409)
  throw_if (not (can_cancel_with_booking d.status (booking_status_of b)).allowed)
      (app_error cancellation_not_allowed 422)
  start_cancel o input d (can_cancel_with_booking d.status (booking_status_of b)).local_only b

-- `cancel` without a stored answer.
unfoldable pub cancel_new : CancelOutside → CancelRequest → Db CancellationResponse
cancel_new o input = do
  d ← load_delivery input.delivery_id input.user_id input.role
  o.pause
  b ← read (find_latest_booking d.id)
  cancel_loaded o input d b

-- `cancel`
unfoldable pub cancel : CancelOutside → CancelRequest → Db CancellationResponse
cancel o input = do
  cached ← read (find_idempotency input.user_id input.idempotency_key)
  elim cached as (λ _. Db CancellationResponse) [
    | some row ↦ replay_cancel input row
    | none ↦ cancel_new o input
  ]
