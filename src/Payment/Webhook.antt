-- ===== src/Payment/Webhook.antt =====
-- Events of the payment gateway: src/modules/payment/webhook/payment-webhook.service.ts.
use doot_backend.Base.{
  ℕ, Bool, true, false, not, Option, none, some, String, ◌==◌, if◌then◌else◌, or_else,
}
use text.Mathlib.Text.{◌==◌ as str_eq}
use doot_backend.Payment.Types.{PaymentStatus, RefundStatus, Payment, Refund}
use doot_backend.Payment.Transitions.{same_payment_status, same_refund_status}
use doot_backend.Payment.Store.{
  app_error, webhook_malformed, refund_not_found, payment_gateway_mismatch, Db, answer, throw, read,
  or_throw, ◌>>=◌, ◌>>◌, throw_if,
}
use doot_backend.Payment.Repository.Queries.{find_by_id, find_refund_by_gateway_refund_id}
use doot_backend.Payment.Service.Outside.{Draws, Outside}
use doot_backend.Payment.Service.RefundSteps.{mark_refund_failed}
use doot_backend.Payment.Service.Settlement.{Settling, mark_refund_successful}
use doot_backend.Payment.Service.Status.{
  mark_payment_pending, mark_payment_failed, Capture, mark_payment_paid,
}

pub data EventType : Type 0 where
  payment_success payment_failed payment_pending refund_success refund_failed other : EventType

-- `NormalizedPaymentWebhookEvent`, by the fields that are read here.
pub record Event : Type 0 where
  pub event_type : EventType
  pub gateway_order_id : String
  pub gateway_payment_id : Option String
  pub payment_method : Option String
  pub failure_code : Option String
  pub failure_message : Option String
  pub gateway_refund_id : Option String

abbrev pub is_paid : Option Payment → Bool
is_paid none = false
is_paid (some p) = same_payment_status p.status PaymentStatus.paid

-- `gatewayRefundId !== refund.gatewayRefundId ? gatewayRefundId : null`
abbrev pub other_id : String → Option String → Option String
other_id id none = some id
other_id id (some known) = if str_eq id known then none else some id

abbrev pub settling_from : Refund → String → Settling
settling_from refund id = record {
  refund_id = refund.id;
  gateway_refund_id = or_else refund.gateway_refund_id (some id);
  gateway_refund_reference =
      or_else refund.gateway_refund_reference (other_id id refund.gateway_refund_id);
}

abbrev pub is_refund_success : EventType → Bool
is_refund_success refund_success = true
is_refund_success _ = false

-- A refund that the event names, and that belongs to the payment.
unfoldable pub apply_refund_event : Outside → Draws → EventType → Refund → String → Db (Unit {0})
apply_refund_event o c type refund id =
    if same_refund_status refund.status RefundStatus.success
    then answer tt
    else if is_refund_success type
    then mark_refund_successful o c (settling_from refund id) >> answer tt
    else if same_refund_status refund.status RefundStatus.failed
    then answer tt
    else mark_refund_failed c refund.id >> answer tt

abbrev pub refund_id_of_event : Option String → Db String
refund_id_of_event none = throw (app_error webhook_malformed 422)
refund_id_of_event (some id) =
    throw_if (str_eq id "") (app_error webhook_malformed 422) >> answer id

unfoldable pub process_refund_event : Outside → Draws → ℕ → Event → Db (Unit {0})
process_refund_event o c payment_id event = do
  id ← refund_id_of_event event.gateway_refund_id
  found ← read (find_refund_by_gateway_refund_id id)
  refund ← or_throw found (app_error refund_not_found 404)
  throw_if (not (refund.payment_id == payment_id)) (app_error payment_gateway_mismatch 409)
  apply_refund_event o c event.event_type refund id

abbrev pub capture_of : ℕ → Event → Capture
capture_of payment_id event = record {
  payment_id = payment_id;
  gateway_payment_id = event.gateway_payment_id;
  payment_method = event.payment_method;
  idempotency_key = none;
}

-- A late failure or pending event is dropped when the payment is paid.
abbrev pub unless_paid : ℕ → Db Payment → Db (Unit {0})
unless_paid payment_id m = do
  current ← read (find_by_id payment_id)
  if is_paid current then answer tt else (m >> answer tt)

abbrev pub process_by : Outside → Draws → ℕ → Event → EventType → Db (Unit {0})
process_by o c k event payment_success = mark_payment_paid o c (capture_of k event) >> answer tt
process_by o c k event payment_failed =
    unless_paid k (mark_payment_failed c k event.failure_code event.failure_message)
process_by o c k event payment_pending =
    unless_paid k (mark_payment_pending k (some event.gateway_order_id))
process_by o c k event refund_success = process_refund_event o c k event
process_by o c k event refund_failed = process_refund_event o c k event
process_by o c k event other = answer tt

unfoldable pub process : Outside → Draws → ℕ → Event → Db (Unit {0})
process o c payment_id event = process_by o c payment_id event event.event_type
