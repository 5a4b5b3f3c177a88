-- ===== src/Payment/Tests.antt =====
-- Concrete payments, calls and surroundings, with which the theorems are run.
pub mod Numbers
pub mod Diagrams
pub mod Reservations
pub mod Calls
pub mod Settled
pub mod History
use doot_backend.Base.{ℕ, ◌≡◌, refl, true, false, Option, none, some, String, [], ◌∷◌, arith}
use doot_backend.Delivery.{DeliveryStatus, option_ready, UserRole, customer, DeliveryRow}
use doot_backend.Pricing.{QuoteSnapshot}
use doot_backend.Delivery.Tables.{no_deliveries}
use doot_backend.Payment.Number.{number_of}
use doot_backend.Payment.Types.{
  PaymentStatus, RefundStatus, GatewayCode, Payment, Refund, PricingSource,
}
use doot_backend.Payment.Store.{Store, answer}
use doot_backend.Payment.Repository.Queries.{find_refund_by_id}
use doot_backend.Payment.Service.Outside.{
  Draws, Outside, GatewayRefundStatus, GatewayRefundResult, GatewayOrder,
}
use doot_backend.Payment.Service.RefundSteps.{RefundRequest}
use doot_backend.Payment.Service.Create.{SelectedOption, Surroundings, CreateRequest}
use doot_backend.Payment.Cover.{IsValid}
use doot_backend.Payment.Cover.Success.{IsFair}
use doot_backend.Payment.Cover.Request.{IsFairOutside}

abbrev pub quote : QuoteSnapshot
quote = record {
  amount = 25000;
  currency = "INR";
  provider_quote_id = some "q-1";
  quoted_at = none;
  provider_quote_amount = none;
  platform_fee_percent = none;
  platform_fee_amount = none;
  gst_amount = none;
  customer_payable_amount = some 32450;
  provider_metadata = none;
}

abbrev pub source : PricingSource
source = record {
  orchestration_request_id = 11;
  orchestration_option_id = 12;
  quote_snapshot = quote;
}

abbrev pub payment_with : PaymentStatus → Payment
payment_with status = record {
  id = 1;
  delivery_id = 7;
  customer_id = 3;
  amount = 32450;
  currency = "INR";
  status = status;
  gateway = GatewayCode.cashfree;
  gateway_order_id = some "order_1";
  gateway_payment_session_id = some "session_1";
  pricing_source = source;
  paid_at = none;
  failed_at = none;
  expired_at = none;
  refunded_amount = 0;
}

abbrev pub paid_payment : Payment
paid_payment = payment_with PaymentStatus.paid

abbrev pub open_refund : Refund
open_refund = record {
  id = 21;
  payment_id = 1;
  delivery_id = 7;
  amount = 450;
  currency = "INR";
  status = RefundStatus.pending;
  reason_code = none;
  reason = none;
  gateway_refund_id = some "gr_1";
  gateway_refund_reference = none;
  idempotency_key = "first";
  requested_at = 5;
  processed_at = none;
}

-- One paid payment with a refund underway.
abbrev pub shop : Store
shop = record {
  payments = paid_payment ∷ [];
  attempts = [];
  refunds = open_refund ∷ [];
  ledger = [];
  create_keys = [];
  delivery_tables = no_deliveries;
}

pub shop-IsValid : IsValid shop
shop-IsValid = record {
  sound = λ k p e. record {
    capped = ground (arith, e);
    counted = ground (arith, e);
    unpaid = λ u. ground (arith, e);
    whole = λ u. ground (arith, e);
    full = λ u. ground (arith, e);
  };
  owned = λ k e. ground (arith, e);
}

abbrev pub draws : Draws
draws = record { now = 100; payment_id = 41; attempt_id = 42; refund_id = 43; ledger_id = 44 }

abbrev pub paid_out : GatewayRefundResult
paid_out = record {
  gateway_refund_id = "gr_2";
  gateway_refund_reference = some "ref_2";
  status = GatewayRefundStatus.success;
}

-- Nobody else commits, and the gateway pays every refund out at once.
abbrev pub quiet : Outside
quiet = record {
  lock = λ k. answer tt;
  pause = answer tt;
  create_refund = λ g i. answer paid_out;
  get_refund_status = λ g a b. answer paid_out;
  create_payment_order = λ g i.
      answer (record { gateway_order_id = "order_2"; payment_session_id = some "session_2" });
}

pub quiet-IsFairOutside : IsFairOutside quiet
unfolding find_refund_by_id
quiet-IsFairOutside = record {
  lock = λ k. record { keeps = λ s v. v; steady = λ s j r r' e f. ground (arith, e, f) };
  create_refund = λ g i s v. v;
  get_refund_status = λ g a b s v. v;
  create_payment_order = λ g i s v. v;
  pause = λ s v. v;
}

abbrev pub refund_request : RefundRequest
refund_request = record {
  payment_id = 1;
  amount = number_of 2000;
  idempotency_key = "second";
  reason_code = some "OTHER";
  reason = none;
  refund_note = none;
}

abbrev pub surroundings : Surroundings
surroundings = record {
  deliveries = record { id = 7; customer_id = 3; reference = "DLV-7"; status = option_ready } ∷ [];
  selected = some (record { orchestration_id = 11; option_id = 12; quote_snapshot = quote });
  gateway_code = GatewayCode.cashfree;
  cashfree_configured = true;
}

abbrev pub create_request : CreateRequest
create_request = record {
  delivery_id = 7;
  user_id = 3;
  role = customer;
  idempotency_key = some "create-1";
  request_hash = "hash-1";
}
