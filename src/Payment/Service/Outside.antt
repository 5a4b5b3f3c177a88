-- ===== src/Payment/Service/Outside.antt =====
-- What the payment service takes from outside: the clock, the ids that the database draws, the row
-- lock, and the gateway of src/modules/payment/gateways (its HTTP side).
use doot_backend.Base.{ℕ, Option, String}
use doot_backend.Payment.Number.{Number}
use doot_backend.Payment.Types.{GatewayCode}
use doot_backend.Payment.Store.{Db}

-- The time of a call, and the id of each row that it may create.
pub record Draws : Type 0 where
  pub now : ℕ
  pub payment_id : ℕ
  pub attempt_id : ℕ
  pub refund_id : ℕ
  pub ledger_id : ℕ

pub data GatewayRefundStatus : Type 0 where
  pending success failed : GatewayRefundStatus

-- `GatewayRefundResult`
pub record GatewayRefundResult : Type 0 where
  pub gateway_refund_id : String
  pub gateway_refund_reference : Option String
  pub status : GatewayRefundStatus

-- `GatewayRefundInput`; `merchant_refund_for` is the refund that the merchant id is built from.
pub record GatewayRefundInput : Type 0 where
  pub payment_id : ℕ
  pub gateway_order_id : String
  pub amount : Number
  pub currency : String
  pub merchant_refund_for : ℕ
  pub idempotency_key : String
  pub refund_note : Option String

-- `GatewayCreateOrderInput`, without the customer's contact details.
pub record GatewayOrderInput : Type 0 where
  pub payment_id : ℕ
  pub delivery_id : ℕ
  pub amount : ℕ
  pub currency : String
  pub customer_id : ℕ
  pub customer_reference : String
  pub existing_gateway_order_id : Option String

pub record GatewayOrder : Type 0 where
  pub gateway_order_id : String
  pub payment_session_id : Option String

-- A call here may change the store: others commit while it waits.
pub record Outside : Type 1 where
  -- `lockPaymentForUpdate`
  pub lock : ℕ → Db (Unit {0})
  -- Between two statements of a call that hold no lock.
  pub pause : Db (Unit {0})
  -- `getPaymentGateway(code).createRefund`, `.getRefundStatus` and `.createPaymentOrder`
  pub create_refund : GatewayCode → GatewayRefundInput → Db GatewayRefundResult
  pub get_refund_status : GatewayCode → String → String → Db GatewayRefundResult
  pub create_payment_order : GatewayCode → GatewayOrderInput → Db GatewayOrder
