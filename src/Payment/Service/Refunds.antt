-- ===== src/Payment/Service/Refunds.antt =====
-- `requestRefund` and `reconcileRefundStatus` of src/modules/payment/payment.service.ts.
use doot_backend.Base.{
  ℕ, Bool, true, false, not, ◌||◌, Option, none, some, String, [], ◌∷◌, ltb, if◌then◌else◌, get_or,
  or_else,
}
use doot_backend.Payment.Types.{RefundStatus, Payment, Refund, truthy}
use doot_backend.Payment.Transitions.{refund_in}
use doot_backend.Payment.Store.{
  Failure, app_error, unique_violation, other_error, UniqueColumn, ok, payment_invalid_amount,
  refund_not_allowed, payment_gateway_error, refund_not_found, Db, answer, throw, read, or_throw,
  catching, ◌>>=◌, ◌>>◌, throw_if,
}
use doot_backend.Payment.Repository.Queries.{
  find_by_id, find_refund_by_id, find_refund_by_idempotency_key,
}
use doot_backend.Payment.Repository.RefundWrites.{RefundPatch, update_refund_status}
use doot_backend.Payment.Service.Outside.{
  Draws, Outside, GatewayRefundStatus, GatewayRefundInput, GatewayRefundResult,
}
use doot_backend.Payment.Service.RefundSteps.{
  RefundRequest, Reservation, created, existing, reserve_active_refund, mark_refund_failed,
}
use doot_backend.Payment.Service.Settlement.{Settling, mark_refund_successful}

-- How the call goes on after the reservation: it returns the refund, or asks the gateway.
pub data Reserved : Type 0 where
  finished : Refund → Reserved
  holding : Refund → Payment → Reserved

abbrev pub to_reserved : Reservation → Reserved
to_reserved (created refund payment) = holding refund payment
to_reserved (existing refund payment) = finished refund

-- `isRefundIdempotencyKeyConflict`
abbrev pub is_refund_idempotency_key_conflict : Failure → Bool
is_refund_idempotency_key_conflict (unique_violation UniqueColumn.refund_idempotency_key) = true
is_refund_idempotency_key_conflict _ = false

abbrev pub on_reserve_conflict : String → Failure → Db Reserved
on_reserve_conflict key e =
    if is_refund_idempotency_key_conflict e
    then (do
      found ← read (find_refund_by_idempotency_key key)
      elim found [ some r ↦ answer (finished r) | none ↦ throw e ])
    else throw e

-- How the call goes on after its `try`. The calls that settle or fail the refund are returned
-- without `await`, so the `catch` does not see what they throw.
pub data Next : Type 0 where
  settle : GatewayRefundResult → Next
  fail : Next
  give : Refund → Next

-- `return pending ?? (await findRefundById(id))!`: on a missing row the caller would fail on null.
unfoldable pub give_pending : ℕ → Option Refund → Db Next
give_pending refund_id pending = do
  found ← read (find_refund_by_id refund_id)
  refund ← or_throw (or_else pending found) other_error
  answer (give refund)

abbrev pub next_of : GatewayRefundResult → ℕ → Option Refund → GatewayRefundStatus → Db Next
next_of result refund_id pending GatewayRefundStatus.success = answer (settle result)
next_of result refund_id pending GatewayRefundStatus.failed = answer fail
next_of result refund_id pending GatewayRefundStatus.pending = give_pending refund_id pending

abbrev pub pending_patch : ℕ → GatewayRefundResult → RefundPatch
pending_patch refund_id result = record {
  refund_id = refund_id;
  from_statuses = RefundStatus.requested ∷ [];
  to_status = RefundStatus.pending;
  gateway_refund_id = some (some result.gateway_refund_id);
  gateway_refund_reference = some result.gateway_refund_reference;
  processed_at = none;
}

abbrev pub refund_input_of : RefundRequest → Refund → Payment → String → GatewayRefundInput
refund_input_of input refund payment order = record {
  payment_id = payment.id;
  gateway_order_id = order;
  amount = input.amount;
  currency = payment.currency;
  merchant_refund_for = refund.id;
  idempotency_key = input.idempotency_key;
  refund_note = or_else input.refund_note input.reason;
}

-- The body of the `try`.
unfoldable pub ask_gateway : Outside → RefundRequest → Refund → Payment → String → Db Next
ask_gateway o input refund payment order = do
  result ← o.create_refund payment.gateway (refund_input_of input refund payment order)
  pending ← update_refund_status (pending_patch refund.id result)
  next_of result refund.id pending result.status

-- `m.catch(() => null)`
abbrev pub ignoring : {A : Type 0} → Db A → Db (Unit {0})
ignoring m s = (ok tt, (m s).1)

-- `error instanceof AppError ? error : new AppError(…)`
abbrev pub gateway_failure : Failure → Failure
gateway_failure (app_error code status) = app_error code status
gateway_failure e = app_error payment_gateway_error 502

unfoldable pub on_gateway_error : Draws → ℕ → Failure → Db Next
on_gateway_error c refund_id e =
    ignoring (mark_refund_failed c refund_id) >> throw (gateway_failure e)

abbrev pub settling_of : ℕ → GatewayRefundResult → Settling
settling_of refund_id result = record {
  refund_id = refund_id;
  gateway_refund_id = some result.gateway_refund_id;
  gateway_refund_reference = result.gateway_refund_reference;
}

unfoldable pub go_on : Outside → Draws → ℕ → Next → Db Refund
go_on o c refund_id (settle result) = mark_refund_successful o c (settling_of refund_id result)
go_on o c refund_id fail = mark_refund_failed c refund_id
go_on o c refund_id (give refund) = answer refund

-- `!gatewayOrderId` with the order that the other branch uses.
abbrev pub order_of : Option String → Db String
order_of none = throw (app_error refund_not_allowed 422)
order_of (some order) =
    throw_if (not (truthy (some order))) (app_error refund_not_allowed 422) >> answer order

unfoldable pub refund_at_gateway : Outside → Draws → RefundRequest → Refund → Payment → Db Refund
refund_at_gateway o c input refund payment = do
  order ← order_of payment.gateway_order_id
  next ← catching (ask_gateway o input refund payment order) (on_gateway_error c refund.id)
  go_on o c refund.id next

-- The reservation with its `catch`.
unfoldable pub reserve_once : Outside → Draws → RefundRequest → Db Reserved
reserve_once o c input =
    catching (do r ← reserve_active_refund o c input; answer (to_reserved r))
      (on_reserve_conflict input.idempotency_key)

abbrev pub after_reserve : Outside → Draws → RefundRequest → Reserved → Db Refund
after_reserve o c input (finished refund) = answer refund
after_reserve o c input (holding refund payment) = refund_at_gateway o c input refund payment

unfoldable pub request_refund : Outside → Draws → RefundRequest → Db Refund
request_refund o c input = do
  throw_if (not (ltb 0 input.amount.double)) (app_error payment_invalid_amount 422)
  found ← read (find_refund_by_idempotency_key input.idempotency_key)
  elim found [
    | some refund ↦ answer refund
    | none ↦ do reserved ← reserve_once o c input; after_reserve o c input reserved
  ]

abbrev pub next_by_status : Refund → GatewayRefundResult → GatewayRefundStatus → Next
next_by_status refund result GatewayRefundStatus.success = settle result
next_by_status refund result GatewayRefundStatus.failed = fail
next_by_status refund result GatewayRefundStatus.pending = give refund

-- The part of `reconcileRefundStatus` that asks the gateway.
unfoldable pub reconcile_at_gateway :
    Outside → Draws → Refund → Payment → String → String → Db Refund
reconcile_at_gateway o c refund payment order gateway_refund_id = do
  result ← o.get_refund_status payment.gateway order gateway_refund_id
  go_on o c refund.id (next_by_status refund result result.status)

abbrev pub text_of : Option String → String
text_of o = get_or o ""

-- There is nothing to ask the gateway for.
abbrev pub is_settled : Refund → Bool
is_settled refund =
    refund_in (RefundStatus.success ∷ RefundStatus.failed ∷ []) refund.status
    || not (truthy refund.gateway_refund_id)

unfoldable pub reconcile_with : Outside → Draws → Refund → Option Payment → Db Refund
reconcile_with o c refund none = answer refund
reconcile_with o c refund (some payment) =
    if truthy payment.gateway_order_id
    then reconcile_at_gateway o c refund payment (text_of payment.gateway_order_id)
        (text_of refund.gateway_refund_id)
    else answer refund

abbrev pub reconcile_found : Outside → Draws → Refund → Db Refund
reconcile_found o c refund =
    if is_settled refund
    then answer refund
    else do payment ← read (find_by_id refund.payment_id); reconcile_with o c refund payment

unfoldable pub reconcile_refund_status : Outside → Draws → ℕ → Db Refund
reconcile_refund_status o c refund_id = do
  found ← read (find_refund_by_id refund_id)
  refund ← or_throw found (app_error refund_not_found 404)
  reconcile_found o c refund
