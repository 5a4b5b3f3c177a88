-- ===== src/Payment/Service/RefundSteps.antt =====
-- The transactions of a refund: reserving it, and failing it.
-- src/modules/payment/payment.service.ts.
use doot_backend.Base.{ℕ, not, Option, none, some, String, [], ◌∷◌}
use doot_backend.Payment.Number.{Number, is_refund_within_paid_amount}
use doot_backend.Payment.Types.{PaymentStatus, RefundStatus, Payment, Refund, truthy}
use doot_backend.Payment.Transitions.{payment_in}
use doot_backend.Payment.Store.{
  app_error, payment_not_found, refund_not_allowed, refund_exceeds_paid, refund_invalid_transition,
  Db, answer, read, or_throw, with_transaction, ◌>>=◌, ◌>>◌, throw_if,
}
use doot_backend.Payment.Repository.Queries.{
  find_by_id, find_refund_by_idempotency_key, sum_active_refund_amounts,
}
use doot_backend.Payment.Repository.RefundWrites.{
  NewRefund, RefundPatch, create_refund, update_refund_status,
}
use doot_backend.Payment.Service.Outside.{Draws, Outside}

pub record RefundRequest : Type 0 where
  pub payment_id : ℕ
  pub amount : Number
  pub idempotency_key : String
  pub reason_code : Option String
  pub reason : Option String
  pub refund_note : Option String

-- `RefundReservationResult`
pub data Reservation : Type 0 where
  created existing : Refund → Payment → Reservation

-- The payment of a refund that holds the key already.
unfoldable pub existing_reservation : Refund → Db Reservation
existing_reservation refund = do
  found ← read (find_by_id refund.payment_id)
  payment ← or_throw found (app_error payment_not_found 404)
  answer (existing refund payment)

abbrev pub refund_of : RefundRequest → Payment → NewRefund
refund_of input payment = record {
  payment_id = payment.id;
  delivery_id = payment.delivery_id;
  amount = input.amount.paise;
  currency = payment.currency;
  idempotency_key = input.idempotency_key;
  reason_code = input.reason_code;
  reason = input.reason;
  status = some RefundStatus.requested;
}

-- The part of `reserveActiveRefund` that finds no refund with the key after the lock.
unfoldable pub reserve_new_refund : Draws → RefundRequest → Db Reservation
reserve_new_refund c input = do
  found ← read (find_by_id input.payment_id)
  payment ← or_throw found (app_error payment_not_found 404)
  throw_if
      (not (payment_in (PaymentStatus.paid ∷ PaymentStatus.partially_refunded ∷ []) payment.status))
      (app_error refund_not_allowed 422)
  throw_if (not (truthy payment.gateway_order_id)) (app_error refund_not_allowed 422)
  reserved ← read (sum_active_refund_amounts payment.id)
  throw_if (not (is_refund_within_paid_amount payment.amount reserved input.amount))
      (app_error refund_exceeds_paid 422)
  refund ← create_refund c.refund_id c.now (refund_of input payment)
  answer (created refund payment)

unfoldable pub reserve_after_lock : Draws → RefundRequest → Db Reservation
reserve_after_lock c input = do
  found ← read (find_refund_by_idempotency_key input.idempotency_key)
  elim found [ some refund ↦ existing_reservation refund | none ↦ reserve_new_refund c input ]

-- Nothing is written before the lock, so a rollback goes back to the store after the lock.
unfoldable pub reserve_active_refund : Outside → Draws → RefundRequest → Db Reservation
reserve_active_refund o c input = do
  found ← read (find_refund_by_idempotency_key input.idempotency_key)
  elim found [
    | some refund ↦ existing_reservation refund
    | none ↦ do o.lock input.payment_id; with_transaction (reserve_after_lock c input)
  ]

abbrev pub failed_patch : Draws → ℕ → RefundPatch
failed_patch c refund_id = record {
  refund_id = refund_id;
  from_statuses = RefundStatus.requested ∷ RefundStatus.pending ∷ [];
  to_status = RefundStatus.failed;
  gateway_refund_id = none;
  gateway_refund_reference = none;
  processed_at = some (some c.now);
}

unfoldable pub mark_refund_failed : Draws → ℕ → Db Refund
mark_refund_failed c refund_id = do
  updated ← update_refund_status (failed_patch c refund_id)
  or_throw updated (app_error refund_invalid_transition 409)
