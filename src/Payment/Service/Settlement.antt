-- ===== src/Payment/Service/Settlement.antt =====
-- Settling a refund that the gateway has paid out, in one transaction with its payment and its
-- ledger entry: `markRefundSuccessful` of src/modules/payment/payment.service.ts.
use doot_backend.Base.{
  ℕ, Bool, not, ◌&&◌, Option, none, some, String, [], ◌∷◌, if◌then◌else◌, get_or, or_else,
}
use doot_backend.Payment.Number.{
  Number, number_of, plus, reaches, same_number, is_refund_within_paid_amount,
}
use doot_backend.Payment.Types.{
  PaymentStatus, RefundStatus, LedgerEntryType, LedgerDirection, Payment, Refund, LedgerKey,
  LedgerEntry,
}
use doot_backend.Payment.Transitions.{
  same_payment_status, same_refund_status, can_transition_payment, can_transition_refund,
}
use doot_backend.Payment.Store.{
  Failure, app_error, unique_violation, refund_not_found, payment_not_found, refund_exceeds_paid,
  refund_invalid_transition, payment_invalid_transition, Db, answer, throw, read, or_throw,
  catching, with_transaction, ◌>>=◌, ◌>>◌, throw_if,
}
use doot_backend.Payment.Repository.Queries.{
  find_by_id, find_refund_by_id, find_ledger_by_idempotency_key, sum_successful_refund_amounts,
}
use doot_backend.Payment.Repository.Writes.{PaymentPatch, status_patch, update_payment_status}
use doot_backend.Payment.Repository.RefundWrites.{
  RefundPatch, update_refund_status, NewLedgerEntry, create_ledger_entry,
}
use doot_backend.Payment.Service.Outside.{Draws, Outside}

-- The handler of a failed insert: an entry with the key, if there is one, is as good.
unfoldable pub on_ledger_conflict : LedgerKey → Failure → Db (Unit {0})
on_ledger_conflict key (unique_violation column) = do
  found ← read (find_ledger_by_idempotency_key key)
  elim found [ some entry ↦ answer tt | none ↦ throw (unique_violation column) ]
on_ledger_conflict key e = throw e

abbrev pub refund_entry : Payment → Refund → LedgerKey → NewLedgerEntry
refund_entry payment refund key = record {
  delivery_id = payment.delivery_id;
  payment_id = payment.id;
  refund_id = some refund.id;
  type = LedgerEntryType.refund;
  direction = LedgerDirection.debit;
  amount = refund.amount;
  currency = refund.currency;
  description = "Customer refund processed";
  idempotency_key = key;
}

unfoldable pub ensure_refund_ledger_entry : Draws → Payment → Refund → LedgerKey → Db (Unit {0})
ensure_refund_ledger_entry c payment refund key = do
  found ← read (find_ledger_by_idempotency_key key)
  elim found [
    | some entry ↦ answer tt
    | none ↦
        catching (create_ledger_entry c.ledger_id (refund_entry payment refund key) >> answer tt)
          (on_ledger_conflict key)
  ]

abbrev pub refund_patch_of : Draws → ℕ → Option String → Option String → RefundPatch
refund_patch_of c refund_id gateway_refund_id reference = record {
  refund_id = refund_id;
  from_statuses = RefundStatus.requested ∷ RefundStatus.pending ∷ [];
  to_status = RefundStatus.success;
  gateway_refund_id = some gateway_refund_id;
  gateway_refund_reference = some reference;
  processed_at = some (some c.now);
}

abbrev pub refunded_patch : ℕ → PaymentStatus → ℕ → PaymentPatch
refunded_patch payment_id to refunded =
    let d =
      status_patch payment_id (PaymentStatus.paid ∷ PaymentStatus.partially_refunded ∷ []) to in
    record d { refunded_amount = some refunded }

-- `total >= payment.amount ? "REFUNDED" : "PARTIALLY_REFUNDED"`
abbrev pub refunded_status : Number → ℕ → PaymentStatus
refunded_status total amount =
    if reaches total amount then PaymentStatus.refunded else PaymentStatus.partially_refunded

-- The payment agrees with the refunds that succeeded.
abbrev pub agrees : Payment → Number → PaymentStatus → Bool
agrees p total status = same_number p.refunded_amount total && same_payment_status p.status status

abbrev pub must_agree : Option Payment → Number → PaymentStatus → Db (Unit {0})
must_agree none total status = throw (app_error payment_invalid_transition 409)
must_agree (some p) total status =
    throw_if (not (agrees p total status)) (app_error payment_invalid_transition 409)

abbrev pub check_repaired : ℕ → Number → PaymentStatus → Option Payment → Db (Unit {0})
check_repaired payment_id total status (some p) = answer tt
check_repaired payment_id total status none = do
  current ← read (find_by_id payment_id)
  must_agree current total status

unfoldable pub repair_payment : Payment → Number → PaymentStatus → Db (Unit {0})
repair_payment payment total status = if agrees payment total status then answer tt else do
  throw_if (not (can_transition_payment payment.status status))
      (app_error payment_invalid_transition 409)
  repaired ← update_payment_status (refunded_patch payment.id status total.paise)
  check_repaired payment.id total status repaired

-- The entry, on the payment row as it stands by now.
abbrev pub enter_ledger : Draws → Payment → Refund → LedgerKey → Db Refund
enter_ledger c payment refund key = do
  again ← read (find_by_id payment.id)
  ensure_refund_ledger_entry c (get_or again payment) refund key
  answer refund

unfoldable pub reconcile_successful_refund_record :
    Draws → Refund → Option LedgerEntry → LedgerKey → Db Refund
reconcile_successful_refund_record c refund (some entry) key = answer refund
reconcile_successful_refund_record c refund none key = do
  found ← read (find_by_id refund.payment_id)
  payment ← or_throw found (app_error payment_not_found 404)
  success_total ← read (sum_successful_refund_amounts payment.id)
  repair_payment payment success_total (refunded_status success_total payment.amount)
  enter_ledger c payment refund key

-- `existing ?? await find(key)`, and then the repair.
unfoldable pub reconcile_again : Draws → Refund → Option LedgerEntry → LedgerKey → Db Refund
reconcile_again c refund known key = do
  found ← read (find_ledger_by_idempotency_key key)
  reconcile_successful_refund_record c refund (or_else known found) key

pub record Settling : Type 0 where
  pub refund_id : ℕ
  pub gateway_refund_id : Option String
  pub gateway_refund_reference : Option String

-- The ledger entry, on the payment row as it was updated or as it stands.
abbrev pub record_settled :
    Draws → Payment → Refund → Number → LedgerKey → Option Payment → Db Refund
record_settled c payment updated_refund new_total key (some p) =
    ensure_refund_ledger_entry c p updated_refund key >> answer updated_refund
record_settled c payment updated_refund new_total key none = do
  current ← read (find_by_id payment.id)
  must_agree current new_total (refunded_status new_total payment.amount)
  enter_ledger c payment updated_refund key

-- After the refund row has changed to SUCCESS: the payment row, and the entry.
unfoldable pub settle_payment : Draws → Payment → Refund → Number → LedgerKey → Db Refund
settle_payment c payment updated_refund new_total key = do
  let next = refunded_status new_total payment.amount
  updated ← update_payment_status (refunded_patch payment.id next new_total.paise)
  record_settled c payment updated_refund new_total key updated

unfoldable pub after_refund_update :
    Draws → Payment → ℕ → Number → Option LedgerEntry → LedgerKey → Option Refund → Db Refund
after_refund_update c payment refund_id new_total known key (some r) =
    settle_payment c payment r new_total key
after_refund_update c payment refund_id new_total known key none = do
  current ← read (find_refund_by_id refund_id)
  r ← or_throw current (app_error refund_invalid_transition 409)
  throw_if (not (same_refund_status r.status RefundStatus.success))
      (app_error refund_invalid_transition 409)
  reconcile_again c r known key

-- The refund, read again under the lock, is not a success yet.
unfoldable pub settle_refund :
    Draws → Settling → ℕ → Refund → Option LedgerEntry → LedgerKey → Db Refund
settle_refund c input payment_id refund known key = do
  found ← read (find_by_id payment_id)
  payment ← or_throw found (app_error payment_not_found 404)
  let new_total = plus (number_of payment.refunded_amount) (number_of refund.amount)
  throw_if
      (not (
        is_refund_within_paid_amount payment.amount (number_of payment.refunded_amount)
          (number_of refund.amount)))
      (app_error refund_exceeds_paid 409)
  throw_if (not (can_transition_payment payment.status (refunded_status new_total payment.amount)))
      (app_error payment_invalid_transition 409)
  updated ←
      update_refund_status
        (refund_patch_of c refund.id input.gateway_refund_id input.gateway_refund_reference)
  after_refund_update c payment refund.id new_total known key updated

-- `before` is the refund as it was read before the lock.
unfoldable pub finalize_after_lock : Draws → Settling → Refund → Option LedgerEntry → Db Refund
finalize_after_lock c input before known = do
  found ← read (find_refund_by_id input.refund_id)
  refund ← or_throw found (app_error refund_not_found 404)
  let key = LedgerKey.refund before.id
  if same_refund_status refund.status RefundStatus.success
      then reconcile_again c refund known key
      else settle_refund c input before.payment_id refund known key

-- Nothing is written before the lock, so a rollback goes back to the store after the lock.
unfoldable pub finalize_refund_success_in_transaction : Outside → Draws → Settling → Db Refund
finalize_refund_success_in_transaction o c input = do
  found ← read (find_refund_by_id input.refund_id)
  refund ← or_throw found (app_error refund_not_found 404)
  let key = LedgerKey.refund refund.id
  known ← read (find_ledger_by_idempotency_key key)
  if same_refund_status refund.status RefundStatus.success
      then with_transaction (reconcile_successful_refund_record c refund known key)
      else do
        throw_if (not (can_transition_refund refund.status RefundStatus.success))
            (app_error refund_invalid_transition 409)
        o.lock refund.payment_id
        with_transaction (finalize_after_lock c input refund known)

-- The handler of a unique violation: a refund that is a success by now is the answer.
unfoldable pub on_settle_conflict : ℕ → Failure → Db Refund
on_settle_conflict refund_id (unique_violation column) = do
  found ← read (find_refund_by_id refund_id)
  elim found [
    | none ↦ throw (unique_violation column)
    | some r ↦
        if same_refund_status r.status RefundStatus.success
        then answer r
        else throw (unique_violation column)
  ]
on_settle_conflict refund_id e = throw e

unfoldable pub mark_refund_successful : Outside → Draws → Settling → Db Refund
mark_refund_successful o c input =
    catching (finalize_refund_success_in_transaction o c input) (on_settle_conflict input.refund_id)
