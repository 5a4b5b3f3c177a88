-- ===== src/Payment/Types.antt =====
-- The rows of the payment tables: src/modules/payment/payment.types.ts, with the enumerations of
-- prisma/schema.prisma that they use.
-- Ids are UUIDs and are only compared, so they are numbers. Amounts are whole paise. Times are
-- milliseconds. `createdAt` and `updatedAt`, which only the database writes, are left out.
use doot_backend.Base.{◌==◌ as num_eq, ℕ, Bool, false, not, Option, none, some, String}
use text.Mathlib.Text.{◌==◌ as str_eq}
use doot_backend.Pricing.{QuoteSnapshot}

pub data PaymentStatus : Type 0 where
  created pending paid failed expired partially_refunded refunded : PaymentStatus

pub data RefundStatus : Type 0 where
  requested pending success failed cancelled : RefundStatus

pub data AttemptStatus : Type 0 where
  created pending succeeded failed : AttemptStatus

pub data GatewayCode : Type 0 where
  stub cashfree : GatewayCode

pub data LedgerEntryType : Type 0 where
  customer_payment refund cancellation_fee provider_payable platform_revenue manual_adjustment :
      LedgerEntryType

pub data LedgerDirection : Type 0 where
  credit debit : LedgerDirection

pub record PricingSource : Type 0 where
  pub orchestration_request_id : ℕ
  pub orchestration_option_id : ℕ
  pub quote_snapshot : QuoteSnapshot

pub record Payment : Type 0 where
  pub id : ℕ
  pub delivery_id : ℕ
  pub customer_id : ℕ
  pub amount : ℕ
  pub currency : String
  pub status : PaymentStatus
  pub gateway : GatewayCode
  pub gateway_order_id : Option String
  pub gateway_payment_session_id : Option String
  pub pricing_source : PricingSource
  pub paid_at : Option ℕ
  pub failed_at : Option ℕ
  pub expired_at : Option ℕ
  pub refunded_amount : ℕ

pub record Attempt : Type 0 where
  pub id : ℕ
  pub payment_id : ℕ
  pub attempt_number : ℕ
  pub gateway_payment_id : Option String
  pub gateway_order_id : Option String
  pub status : AttemptStatus
  pub amount : ℕ
  pub currency : String
  pub payment_method : Option String
  pub failure_code : Option String
  pub failure_message : Option String
  pub started_at : Option ℕ
  pub completed_at : Option ℕ

pub record Refund : Type 0 where
  pub id : ℕ
  pub payment_id : ℕ
  pub delivery_id : ℕ
  pub amount : ℕ
  pub currency : String
  pub status : RefundStatus
  pub reason_code : Option String
  pub reason : Option String
  pub gateway_refund_id : Option String
  pub gateway_refund_reference : Option String
  pub idempotency_key : String
  pub requested_at : ℕ
  pub processed_at : Option ℕ

-- The texts that payment.constants.ts builds, `payment-paid:${id}` and `refund:${id}`, by what
-- they are built from; `given` is a key that a caller hands over.
pub data LedgerKey : Type 0 where
  payment_paid : ℕ → LedgerKey
  refund : ℕ → LedgerKey
  given : String → LedgerKey

abbrev pub same_key : LedgerKey → LedgerKey → Bool
same_key (payment_paid a) (payment_paid b) = num_eq a b
same_key (refund a) (refund b) = num_eq a b
same_key (given a) (given b) = str_eq a b
same_key _ _ = false

pub record LedgerEntry : Type 0 where
  pub id : ℕ
  pub delivery_id : ℕ
  pub payment_id : ℕ
  pub refund_id : Option ℕ
  pub type : LedgerEntryType
  pub direction : LedgerDirection
  pub amount : ℕ
  pub currency : String
  pub description : String
  pub idempotency_key : LedgerKey

-- A text column that is neither null nor empty, as `!column` tests it.
abbrev pub truthy : Option String → Bool
truthy none = false
truthy (some s) = not (str_eq s "")

-- `CustomerPaymentDto`; a time is kept as its number, where the source prints it.
pub record LatestAttempt : Type 0 where
  pub id : ℕ
  pub attempt_number : ℕ
  pub status : AttemptStatus
  pub started_at : Option ℕ

pub record CustomerPayment : Type 0 where
  pub id : ℕ
  pub delivery_id : ℕ
  pub amount : ℕ
  pub currency : String
  pub status : PaymentStatus
  pub gateway : GatewayCode
  pub gateway_order_id : Option String
  pub payment_session_id : Option String
  pub paid_at : Option ℕ
  pub refunded_amount : ℕ
  pub latest_attempt : Option LatestAttempt

abbrev to_latest_attempt : Attempt → LatestAttempt
to_latest_attempt a = record {
  id = a.id;
  attempt_number = a.attempt_number;
  status = a.status;
  started_at = a.started_at;
}

-- src/modules/payment/payment.mapper.ts.
unfoldable pub to_customer_payment_dto : Payment → Option Attempt → CustomerPayment
to_customer_payment_dto payment latest = record {
  id = payment.id;
  delivery_id = payment.delivery_id;
  amount = payment.amount;
  currency = payment.currency;
  status = payment.status;
  gateway = payment.gateway;
  gateway_order_id = payment.gateway_order_id;
  payment_session_id = payment.gateway_payment_session_id;
  paid_at = payment.paid_at;
  refunded_amount = payment.refunded_amount;
  latest_attempt = elim latest [ none ↦ none | some a ↦ some (to_latest_attempt a) ];
}

-- A row of the table that makes payment creation idempotent.
pub record CreateKey : Type 0 where
  pub customer_id : ℕ
  pub key : String
  pub request_hash : String
  pub delivery_id : ℕ
  pub response_payload : CustomerPayment
