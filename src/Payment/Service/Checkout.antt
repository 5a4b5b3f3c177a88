-- ===== src/Payment/Service/Checkout.antt =====
-- The gateway order of a payment: `ensureGatewayCheckout` of src/modules/payment/payment.service.ts.
use doot_backend.Base.{
  ℕ, Bool, true, false, not, ◌&&◌, ◌||◌, Option, none, some, String, [], ◌∷◌, if◌then◌else◌, get_or,
}
use doot_backend.Payment.Types.{PaymentStatus, AttemptStatus, GatewayCode, Payment, Attempt, truthy}
use doot_backend.Payment.Transitions.{same_payment_status, payment_in}
use doot_backend.Payment.Store.{
  Failure, app_error, payment_gateway_error, internal_error, Db, answer, throw, read, or_throw,
  catching, with_transaction, ◌>>=◌, ◌>>◌,
}
use doot_backend.Payment.Repository.Queries.{find_by_id, find_latest_attempt}
use doot_backend.Payment.Repository.Writes.{
  PaymentPatch, status_patch, update_payment_status, NewAttempt, create_attempt,
}
use doot_backend.Payment.Service.Outside.{Draws, Outside, GatewayOrderInput, GatewayOrder}
use doot_backend.Payment.Service.Status.{open_payment_statuses, Capture, mark_payment_paid}

-- The arguments, but for the customer's contact details, which only the gateway reads.
pub record Checkout : Type 0 where
  pub payment : Payment
  pub delivery_id : ℕ
  pub amount : ℕ
  pub currency : String
  pub customer_id : ℕ
  pub customer_reference : String

abbrev pub is_stub : GatewayCode → Bool
is_stub GatewayCode.stub = true
is_stub GatewayCode.cashfree = false

unfoldable pub needs_checkout_completion : Payment → Bool
needs_checkout_completion p =
    if is_stub p.gateway
    then same_payment_status p.status PaymentStatus.created
    else payment_in open_payment_statuses p.status
      && (not (truthy p.gateway_order_id) || not (truthy p.gateway_payment_session_id))

abbrev pub has_checkout : Payment → Bool
has_checkout p = truthy p.gateway_order_id && truthy p.gateway_payment_session_id

abbrev pub order_input_of : Checkout → GatewayOrderInput
order_input_of input = record {
  payment_id = input.payment.id;
  delivery_id = input.delivery_id;
  amount = input.amount;
  currency = input.currency;
  customer_id = input.customer_id;
  customer_reference = input.customer_reference;
  existing_gateway_order_id = input.payment.gateway_order_id;
}

-- `catch` around the gateway's call: an `AppError` passes, any other becomes PAYMENT_GATEWAY_ERROR.
abbrev pub on_order_error : Failure → Db GatewayOrder
on_order_error (app_error code status) = throw (app_error code status)
on_order_error e = throw (app_error payment_gateway_error 502)

abbrev pub order_patch : ℕ → GatewayOrder → PaymentPatch
order_patch payment_id order =
    let d = status_patch payment_id open_payment_statuses PaymentStatus.pending in
    record d {
      gateway_order_id = some (some order.gateway_order_id);
      gateway_payment_session_id = some order.payment_session_id;
    }

abbrev pub gone : Failure
gone = app_error internal_error 500

abbrev pub first_attempt : Checkout → GatewayOrder → NewAttempt
first_attempt input order = record {
  payment_id = input.payment.id;
  attempt_number = 1;
  amount = input.amount;
  currency = input.currency;
  gateway_order_id = some order.gateway_order_id;
  status = some AttemptStatus.pending;
  started_at = none;
}

abbrev pub ensure_attempt : Draws → Checkout → GatewayOrder → Option Attempt → Db (Unit {0})
ensure_attempt c input order (some attempt) = answer tt
ensure_attempt c input order none =
    create_attempt c.attempt_id c.now (first_attempt input order) >> answer tt

abbrev pub after_order_update :
    Draws → Checkout → GatewayOrder → Option Attempt → Option Payment → Db Payment
after_order_update c input order latest none = do
  current ← read (find_by_id input.payment.id)
  or_throw current gone
after_order_update c input order latest (some updated) = do
  ensure_attempt c input order latest
  current ← read (find_by_id input.payment.id)
  or_throw current gone

-- The transaction that stores the order.
unfoldable pub store_order : Draws → Checkout → GatewayOrder → Option Attempt → Db Payment
store_order c input order latest = do
  updated ← update_payment_status (order_patch input.payment.id order)
  after_order_update c input order latest updated

abbrev pub stub_capture : ℕ → Capture
stub_capture payment_id = record {
  payment_id = payment_id;
  gateway_payment_id = none;
  payment_method = some "STUB";
  idempotency_key = none;
}

-- The stub gateway settles at once.
abbrev pub settle_stub : Outside → Draws → GatewayCode → Payment → Db Payment
settle_stub o c code refreshed =
    if is_stub code && same_payment_status refreshed.status PaymentStatus.pending
    then mark_payment_paid o c (stub_capture refreshed.id)
    else answer refreshed

unfoldable pub order_at_gateway : Outside → Draws → GatewayCode → Checkout → Db Payment
order_at_gateway o c code input = do
  order ← catching (o.create_payment_order code (order_input_of input)) on_order_error
  latest ← read (find_latest_attempt input.payment.id)
  refreshed ← with_transaction (store_order c input order latest)
  settle_stub o c code refreshed

abbrev pub to_pending : Payment → Db Payment
to_pending p = do
  pending ←
      update_payment_status (status_patch p.id (PaymentStatus.created ∷ []) PaymentStatus.pending)
  answer (get_or pending p)

unfoldable pub ensure_gateway_checkout : Outside → Draws → GatewayCode → Checkout → Db Payment
ensure_gateway_checkout o c code input =
    if has_checkout input.payment && same_payment_status input.payment.status PaymentStatus.pending
    then answer input.payment
    else if has_checkout input.payment
        && same_payment_status input.payment.status PaymentStatus.created
    then to_pending input.payment
    else order_at_gateway o c code input
