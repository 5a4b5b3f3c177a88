-- ===== src/Cancellation/Refunding.antt =====
-- The refund after a cancellation: src/modules/cancellation/cancellation-refund.ts.
use Prim.Native.String.{◌++◌}
use doot_backend.Base.{ℕ, not, Option, none, some, String, [], ◌∷◌, ltb, if◌then◌else◌, get_or}
use doot_backend.Payment.Number.{Number, number_of, minus}
use doot_backend.Payment.Types.{PaymentStatus, RefundStatus, Payment, Refund}
use doot_backend.Payment.Transitions.{payment_in, same_refund_status}
use doot_backend.Payment.Store.{Failure, Db, answer, read, catching, ◌>>=◌, ◌>>◌}
use doot_backend.Payment.Repository.Queries.{
  find_by_delivery_id, find_refund_by_idempotency_key, sum_active_refund_amounts,
}
use doot_backend.Payment.Service.Outside.{Draws, Outside}
use doot_backend.Payment.Service.RefundSteps.{RefundRequest}
use doot_backend.Payment.Service.Refunds.{request_refund}

-- The cancellation's id is a text here: the key of the refund is built from it.
pub record Cancelled : Type 0 where
  pub delivery_id : ℕ
  pub cancellation_id : String
  pub reason_code : String
  pub reason_message : Option String

-- `failureMessage`, by where its text comes from.
pub data Explanation : Type 0 where
  reconciliation_required : Explanation
  thrown : Failure → Explanation

-- `CancellationRefundSummary`; a `refund_id` of `none` is the empty text.
pub record Summary : Type 0 where
  pub refund_id : Option ℕ
  pub status : RefundStatus
  pub amount : Number
  pub currency : String
  pub failure : Option Explanation

abbrev pub cancel_key : String → String
cancel_key cancellation_id = "cancel-refund:" ++ cancellation_id

abbrev pub summary_of : Refund → Summary
summary_of r = record {
  refund_id = some r.id;
  status = r.status;
  amount = number_of r.amount;
  currency = r.currency;
  failure =
      if same_refund_status r.status RefundStatus.failed
      then some reconciliation_required
      else none;
}

abbrev pub requested_summary : Refund → Summary
requested_summary r = record {
  refund_id = some r.id;
  status = r.status;
  amount = number_of r.amount;
  currency = r.currency;
  failure = none;
}

abbrev pub failed_summary : Number → String → Failure → Summary
failed_summary remaining currency e = record {
  refund_id = none;
  status = RefundStatus.failed;
  amount = remaining;
  currency = currency;
  failure = some (thrown e);
}

abbrev pub cancel_request : Cancelled → Payment → Number → RefundRequest
cancel_request input payment remaining = record {
  payment_id = payment.id;
  amount = remaining;
  idempotency_key = cancel_key input.cancellation_id;
  reason_code = some input.reason_code;
  reason = some (get_or input.reason_message ("Cancellation " ++ input.cancellation_id));
  refund_note = none;
}

-- The `catch`: the refund may be there all the same.
abbrev pub on_refund_error : Cancelled → Payment → Number → Failure → Db (Option Summary)
on_refund_error input payment remaining e = do
  found ← read (find_refund_by_idempotency_key (cancel_key input.cancellation_id))
  elim found [
    | some r ↦ answer (some (summary_of r))
    | none ↦ answer (some (failed_summary remaining payment.currency e))
  ]

abbrev pub request_remaining : Outside → Draws → Cancelled → Payment → Number → Db (Option Summary)
request_remaining o c input payment remaining = do
  r ← request_refund o c (cancel_request input payment remaining)
  answer (some (requested_summary r))

-- `Math.max(0, payment.amount - reserved)`
abbrev pub remaining_of : Payment → Number → Number
remaining_of payment reserved = minus (number_of payment.amount) reserved

unfoldable pub refund_remaining : Outside → Draws → Cancelled → Payment → Db (Option Summary)
refund_remaining o c input payment = do
  reserved ← read (sum_active_refund_amounts payment.id)
  if not (ltb 0 (remaining_of payment reserved).double)
      then answer none
      else o.pause
        >> catching (request_remaining o c input payment (remaining_of payment reserved))
            (on_refund_error input payment (remaining_of payment reserved))

abbrev pub refund_if_paid : Outside → Draws → Cancelled → Option Payment → Db (Option Summary)
refund_if_paid o c input none = answer none
refund_if_paid o c input (some payment) =
    if payment_in (PaymentStatus.paid ∷ PaymentStatus.partially_refunded ∷ []) payment.status
    then refund_remaining o c input payment
    else answer none

unfoldable pub refund_prepaid_after_cancellation : Outside → Draws → Cancelled → Db (Option Summary)
refund_prepaid_after_cancellation o c input = do
  found ← read (find_refund_by_idempotency_key (cancel_key input.cancellation_id))
  elim found [
    | some r ↦ answer (some (summary_of r))
    | none ↦ do
      payment ← read (find_by_delivery_id input.delivery_id)
      refund_if_paid o c input payment
  ]
