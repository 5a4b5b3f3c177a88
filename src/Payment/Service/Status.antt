-- ===== src/Payment/Service/Status.antt =====
-- `markPaymentPending`, `markPaymentPaid`, `markPaymentFailed` and `markPaymentExpired` of
-- src/modules/payment/payment.service.ts.
use doot_backend.Base.{ℕ, not, Option, none, some, String, List, [], ◌∷◌, if◌then◌else◌, get_or}
use doot_backend.Payment.Types.{
  PaymentStatus, AttemptStatus, LedgerEntryType, LedgerDirection, Payment, Attempt, LedgerKey,
  LedgerEntry,
}
use doot_backend.Payment.Transitions.{same_payment_status, can_transition_payment}
use doot_backend.Payment.Store.{
  Failure, app_error, unique_violation, payment_not_found, payment_invalid_transition,
  internal_error, Db, answer, throw, read, or_throw, catching, with_transaction, ◌>>=◌, ◌>>◌,
  throw_if,
}
use doot_backend.Payment.Repository.Queries.{
  find_by_id, find_latest_attempt, find_ledger_by_idempotency_key,
}
use doot_backend.Payment.Repository.Writes.{
  PaymentPatch, status_patch, update_payment_status, AttemptPatch, update_attempt,
}
use doot_backend.Payment.Repository.RefundWrites.{NewLedgerEntry, create_ledger_entry}
use doot_backend.Payment.Service.Outside.{Draws, Outside}

abbrev pub invalid_transition : Failure
invalid_transition = app_error payment_invalid_transition 409

-- The patch carries the payment's id, the statuses allowed before, and the columns to write.
unfoldable pub transition_payment : PaymentPatch → Db Payment
transition_payment input = do
  found ← read (find_by_id input.payment_id)
  current ← or_throw found (app_error payment_not_found 404)
  throw_if (not (can_transition_payment current.status input.to_status)) invalid_transition
  updated ← update_payment_status input
  or_throw updated invalid_transition

abbrev pub pending_payment_patch : ℕ → Option String → PaymentPatch
pending_payment_patch payment_id order =
    let d = status_patch payment_id (PaymentStatus.created ∷ []) PaymentStatus.pending in
    record d { gateway_order_id = elim order [ none ↦ none | some o ↦ some (some o) ] }

unfoldable pub mark_payment_pending : ℕ → Option String → Db Payment
mark_payment_pending payment_id order = transition_payment (pending_payment_patch payment_id order)

abbrev pub open_payment_statuses : List PaymentStatus
open_payment_statuses = PaymentStatus.created ∷ PaymentStatus.pending ∷ []

abbrev pub expired_payment_patch : Draws → ℕ → PaymentPatch
expired_payment_patch c payment_id =
    let d = status_patch payment_id open_payment_statuses PaymentStatus.expired in
    record d { expired_at = some (some c.now) }

unfoldable pub mark_payment_expired : Draws → ℕ → Db Payment
mark_payment_expired c payment_id = transition_payment (expired_payment_patch c payment_id)

abbrev pub failed_payment_patch : Draws → ℕ → PaymentPatch
failed_payment_patch c payment_id =
    let d = status_patch payment_id open_payment_statuses PaymentStatus.failed in
    record d { failed_at = some (some c.now) }

abbrev pub failed_attempt_patch : Draws → Option String → Option String → ℕ → AttemptPatch
failed_attempt_patch c code message attempt_id = record {
  attempt_id = attempt_id;
  status = AttemptStatus.failed;
  gateway_payment_id = none;
  payment_method = none;
  failure_code = some code;
  failure_message = some message;
  completed_at = some (some c.now);
}

abbrev pub fail_attempt : Draws → Option String → Option String → Option Attempt → Db (Unit {0})
fail_attempt c code message none = answer tt
fail_attempt c code message (some attempt) =
    update_attempt (failed_attempt_patch c code message attempt.id) >> answer tt

unfoldable pub mark_payment_failed : Draws → ℕ → Option String → Option String → Db Payment
mark_payment_failed c payment_id code message = do
  payment ← transition_payment (failed_payment_patch c payment_id)
  latest ← read (find_latest_attempt payment.id)
  fail_attempt c code message latest
  answer payment

pub record Capture : Type 0 where
  pub payment_id : ℕ
  pub gateway_payment_id : Option String
  pub payment_method : Option String
  pub idempotency_key : Option LedgerKey

abbrev pub paid_patch : Draws → ℕ → PaymentPatch
paid_patch c payment_id =
    let d = status_patch payment_id open_payment_statuses PaymentStatus.paid in
    record d { paid_at = some (some c.now) }

abbrev pub succeeded_attempt_patch : Draws → Capture → ℕ → AttemptPatch
succeeded_attempt_patch c input attempt_id = record {
  attempt_id = attempt_id;
  status = AttemptStatus.succeeded;
  gateway_payment_id = some input.gateway_payment_id;
  payment_method = some input.payment_method;
  failure_code = none;
  failure_message = none;
  completed_at = some (some c.now);
}

abbrev pub succeed_attempt : Draws → Capture → Option Attempt → Db (Unit {0})
succeed_attempt c input none = answer tt
succeed_attempt c input (some attempt) =
    update_attempt (succeeded_attempt_patch c input attempt.id) >> answer tt

abbrev pub payment_entry : Payment → LedgerKey → NewLedgerEntry
payment_entry payment key = record {
  delivery_id = payment.delivery_id;
  payment_id = payment.id;
  refund_id = none;
  type = LedgerEntryType.customer_payment;
  direction = LedgerDirection.credit;
  amount = payment.amount;
  currency = payment.currency;
  description = "Customer payment captured";
  idempotency_key = key;
}

-- The payment, if it is paid by now; else the error.
abbrev pub paid_or : Failure → Option Payment → Db Payment
paid_or e none = throw e
paid_or e (some p) = if same_payment_status p.status PaymentStatus.paid then answer p else throw e

-- In the transaction, after the update of the status.
abbrev pub after_paid_update :
    Draws → Capture → Payment → Option Attempt → LedgerKey → Option Payment → Db Payment
after_paid_update c input payment latest key none = do
  current ← read (find_by_id payment.id)
  paid_or invalid_transition current
after_paid_update c input payment latest key (some updated) = do
  succeed_attempt c input latest
  create_ledger_entry c.ledger_id (payment_entry payment key)
  answer updated

unfoldable pub capture_payment : Draws → Capture → Payment → Option Attempt → LedgerKey → Db Payment
capture_payment c input payment latest key = do
  updated ← update_payment_status (paid_patch c payment.id)
  after_paid_update c input payment latest key updated

-- The handler of a unique violation.
unfoldable pub on_capture_conflict : ℕ → Failure → Db Payment
on_capture_conflict payment_id (unique_violation column) = do
  current ← read (find_by_id payment_id)
  paid_or (unique_violation column) current
on_capture_conflict payment_id e = throw e

unfoldable pub capture_once : Outside → Draws → Capture → Payment → LedgerKey → Db Payment
capture_once o c input payment key = do
  latest ← read (find_latest_attempt payment.id)
  o.pause
  catching (with_transaction (capture_payment c input payment latest key))
      (on_capture_conflict payment.id)

-- An entry for the capture: the payment must be paid.
abbrev pub after_ledger_check :
    Outside → Draws → Capture → Payment → LedgerKey → Option LedgerEntry → Db Payment
after_ledger_check o c input payment key none = capture_once o c input payment key
after_ledger_check o c input payment key (some entry) = do
  current ← read (find_by_id input.payment_id)
  paid_or (app_error internal_error 500) current

abbrev pub capture_found : Outside → Draws → Capture → Payment → Db Payment
capture_found o c input payment =
    if same_payment_status payment.status PaymentStatus.paid then answer payment else do
      throw_if (not (can_transition_payment payment.status PaymentStatus.paid)) invalid_transition
      let key = get_or input.idempotency_key (LedgerKey.payment_paid payment.id)
      entry ← read (find_ledger_by_idempotency_key key)
      after_ledger_check o c input payment key entry

unfoldable pub mark_payment_paid : Outside → Draws → Capture → Db Payment
mark_payment_paid o c input = do
  found ← read (find_by_id input.payment_id)
  payment ← or_throw found (app_error payment_not_found 404)
  capture_found o c input payment
