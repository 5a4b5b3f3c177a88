-- ===== src/Payment/Tests/Calls.antt =====
-- Instances of the theorems on whole calls.
use doot_backend.Base.{◌≡◌, refl, inl, inr, true, none, some, [], ◌∷◌}
use doot_backend.Delivery.Tables.{no_deliveries}
use doot_backend.Payment.Types.{
  PaymentStatus, LedgerEntryType, LedgerDirection, Payment, LedgerKey, LedgerEntry,
}
use doot_backend.Payment.Transitions.{same_payment_status}
use doot_backend.Payment.Store.{Store, ok}
use doot_backend.Payment.Repository.Queries.{find_by_id, find_ledger_by_idempotency_key}
use doot_backend.Payment.Repository.Writes.{update_payment_status}
use doot_backend.Payment.Repository.RefundWrites.{create_ledger_entry}
use doot_backend.Payment.Service.Settlement.{Settling, mark_refund_successful}
use doot_backend.Payment.Service.Refunds.{request_refund}
use doot_backend.Payment.Service.Status.{Capture, capture_payment, mark_payment_paid}
use doot_backend.Payment.Service.Create.{CreateRequest}
use doot_backend.Payment.Webhook.{refund_success, payment_failed, Event, process}
use doot_backend.Payment.Cover.{IsValid}
use doot_backend.Payment.Cover.Success.{mark_refund_successful-Keeps}
use doot_backend.Payment.Cover.Request.{request_refund-Keeps}
use doot_backend.Payment.Captures.{mark_payment_paid-capture_payment, process-capture_payment}
use doot_backend.Payment.Tests.{
  payment_with, shop, shop-IsValid, draws, quiet, quiet-IsFairOutside, refund_request,
  create_request,
}

request_refund-Keeps_example : IsValid (request_refund quiet draws refund_request shop).1
request_refund-Keeps_example =
    request_refund-Keeps quiet quiet-IsFairOutside draws refund_request shop shop-IsValid

abbrev settling : Settling
settling = record {
  refund_id = 21;
  gateway_refund_id = some "gr_1";
  gateway_refund_reference = none;
}

mark_refund_successful-Keeps_example : IsValid (mark_refund_successful quiet draws settling shop).1
mark_refund_successful-Keeps_example =
    mark_refund_successful-Keeps draws settling quiet (quiet-IsFairOutside.lock) shop shop-IsValid

abbrev capture : Capture
capture = record {
  payment_id = 1;
  gateway_payment_id = some "pay_1";
  payment_method = some "UPI";
  idempotency_key = none;
}

abbrev refunded_event : Event
refunded_event = record {
  event_type = refund_success;
  gateway_order_id = "order_1";
  gateway_payment_id = none;
  payment_method = none;
  failure_code = none;
  failure_message = none;
  gateway_refund_id = some "gr_1";
}

abbrev pending_payment : Payment
pending_payment = payment_with PaymentStatus.pending

abbrev pending_shop : Store
pending_shop = record {
  payments = pending_payment ∷ [];
  attempts = [];
  refunds = [];
  ledger = [];
  create_keys = [];
  delivery_tables = no_deliveries;
}

abbrev captured_payment : Payment
captured_payment = record pending_payment { status = PaymentStatus.paid; paid_at = some 100 }

abbrev captured_entry : LedgerEntry
captured_entry = record {
  id = 44;
  delivery_id = 7;
  payment_id = 1;
  refund_id = none;
  type = LedgerEntryType.customer_payment;
  direction = LedgerDirection.credit;
  amount = 32450;
  currency = "INR";
  description = "Customer payment captured";
  idempotency_key = LedgerKey.payment_paid 1;
}

abbrev captured_shop : Store
captured_shop = record pending_shop {
  payments = captured_payment ∷ [];
  ledger = captured_entry ∷ [];
}

captured :
    capture_payment draws capture pending_payment none (LedgerKey.payment_paid 1) pending_shop
    ≡ (ok captured_payment, captured_shop)
unfolding capture_payment update_payment_status find_by_id create_ledger_entry
    find_ledger_by_idempotency_key
captured = refl

mark_payment_paid-capture_payment_example :
    (find_by_id 1 captured_shop ≡ some captured_payment)
    × (same_payment_status PaymentStatus.paid PaymentStatus.paid ≡ true)
    × (mark_payment_paid quiet draws capture captured_shop ≡ (ok captured_payment, captured_shop))
mark_payment_paid-capture_payment_example =
    mark_payment_paid-capture_payment quiet draws draws capture capture pending_payment
      captured_payment none (LedgerKey.payment_paid 1) pending_shop captured_shop captured refl

abbrev late_failure : Event
late_failure = record refunded_event { event_type = payment_failed; gateway_refund_id = none }

process-capture_payment_example :
    process quiet draws 1 late_failure captured_shop ≡ (ok tt, captured_shop)
process-capture_payment_example =
    process-capture_payment quiet draws draws capture pending_payment captured_payment none
      (LedgerKey.payment_paid 1) pending_shop captured_shop late_failure captured (inr (inl refl))

abbrev other_request : CreateRequest
other_request = record create_request { delivery_id = 8 }
