-- ===== src/Payment/Service/Create.antt =====
-- `createPaymentForDelivery` and `getPaymentForDelivery` of
-- src/modules/payment/payment.service.ts.
use doot_backend.Base.{
  ℕ, Bool, true, false, not, ◌&&◌, ◌||◌, Option, none, some, String, List, [], ◌∷◌, ltb, ◌==◌,
  if◌then◌else◌,
}
use text.Mathlib.Text.{◌==◌ as str_eq}
use doot_backend.Delivery.{
  option_ready, same_status, UserRole, admin, customer, DeliveryRow, load_authorized_delivery,
}
use doot_backend.Pricing.{QuoteSnapshot, resolve_customer_payable_amount}
use doot_backend.Payment.Types.{
  PaymentStatus, GatewayCode, PricingSource, Payment, CustomerPayment, to_customer_payment_dto,
  CreateKey,
}
use doot_backend.Payment.Transitions.{payment_in}
use doot_backend.Payment.Store.{
  app_error, idempotency_conflict, payment_not_allowed, forbidden, payment_already_exists,
  payment_not_found, payment_invalid_amount, internal_error, delivery_not_found,
  payment_gateway_not_configured, Db, answer, throw, read, or_throw, with_transaction, ◌>>=◌, ◌>>◌,
  throw_if,
}
use doot_backend.Payment.Repository.Queries.{
  find_by_id, find_by_delivery_id, find_latest_attempt, find_create_idempotency,
}
use doot_backend.Payment.Repository.Writes.{NewPayment, create_payment, save_create_idempotency}
use doot_backend.Payment.Service.Outside.{Draws, Outside}
use doot_backend.Payment.Service.Checkout.{
  Checkout, needs_checkout_completion, ensure_gateway_checkout,
}

pub record CreateRequest : Type 0 where
  pub delivery_id : ℕ
  pub user_id : ℕ
  pub role : UserRole
  pub idempotency_key : Option String
  pub request_hash : String

-- A completed orchestration with its selected option.
pub record SelectedOption : Type 0 where
  pub orchestration_id : ℕ
  pub option_id : ℕ
  pub quote_snapshot : QuoteSnapshot

-- What the call reads from elsewhere: the deliveries, the latest completed orchestration of the
-- delivery if it has a selected option, the service's gateway, and whether Cashfree is configured.
pub record Surroundings : Type 0 where
  pub deliveries : List DeliveryRow
  pub selected : Option SelectedOption
  pub gateway_code : GatewayCode
  pub cashfree_configured : Bool

pub record Pricing : Type 0 where
  pub amount : ℕ
  pub currency : String
  pub pricing_source : PricingSource

-- `customerPayableAmount` must be positive, and the currency INR.
unfoldable pub price_of : SelectedOption → Db Pricing
price_of option = do
  let quote = option.quote_snapshot
  throw_if (str_eq quote.currency "") (app_error payment_not_allowed 422)
  let amount = resolve_customer_payable_amount quote
  throw_if (not (ltb 0 amount)) (app_error payment_invalid_amount 422)
  throw_if (not (str_eq quote.currency "INR")) (app_error payment_not_allowed 422)
  answer (record {
    amount = amount;
    currency = "INR";
    pricing_source = record {
      orchestration_request_id = option.orchestration_id;
      orchestration_option_id = option.option_id;
      quote_snapshot = quote;
    };
  })

-- `resolveAuthoritativePricing`
unfoldable pub resolve_authoritative_pricing : Surroundings → Db Pricing
resolve_authoritative_pricing w = do
  option ← or_throw w.selected (app_error payment_not_allowed 422)
  price_of option

-- `assertPaymentGatewayReady` of src/modules/payment/payment-gateway.config.ts
abbrev pub gateway_ready : GatewayCode → Bool → Bool
gateway_ready GatewayCode.cashfree configured = configured
gateway_ready GatewayCode.stub configured = true

abbrev pub key_row : CreateRequest → String → CustomerPayment → CreateKey
key_row input key response = record {
  customer_id = input.user_id;
  key = key;
  request_hash = input.request_hash;
  delivery_id = input.delivery_id;
  response_payload = response;
}

abbrev pub persist_create_idempotency :
    CreateRequest → CustomerPayment → Option String → Db (Unit {0})
persist_create_idempotency input response none = answer tt
persist_create_idempotency input response (some key) =
    if str_eq key "" then answer tt else save_create_idempotency (key_row input key response)

-- The answer, built from the payment and its latest attempt, and stored under the key.
unfoldable pub respond : CreateRequest → Payment → Db CustomerPayment
respond input payment = do
  latest ← read (find_latest_attempt payment.id)
  let response = to_customer_payment_dto payment latest
  persist_create_idempotency input response input.idempotency_key
  answer response

abbrev pub checkout_of : CreateRequest → DeliveryRow → Pricing → Payment → Checkout
checkout_of input delivery pricing payment = record {
  payment = payment;
  delivery_id = input.delivery_id;
  amount = pricing.amount;
  currency = pricing.currency;
  customer_id = delivery.customer_id;
  customer_reference = delivery.reference;
}

abbrev pub new_payment_of : GatewayCode → CreateRequest → DeliveryRow → Pricing → NewPayment
new_payment_of code input delivery pricing = record {
  delivery_id = input.delivery_id;
  customer_id = delivery.customer_id;
  amount = pricing.amount;
  currency = pricing.currency;
  gateway = code;
  pricing_source = pricing.pricing_source;
}

unfoldable pub insert_payment :
    Draws → GatewayCode → CreateRequest → DeliveryRow → Pricing → Db Payment
insert_payment c code input delivery pricing = do
  created ← create_payment c.payment_id (new_payment_of code input delivery pricing)
  refreshed ← read (find_by_id created.id)
  or_throw refreshed (app_error internal_error 500)

abbrev pub complete_checkout :
    Outside → Draws → GatewayCode → CreateRequest → DeliveryRow → Pricing → Payment → Db Payment
complete_checkout o c code input delivery pricing payment =
    if needs_checkout_completion payment
    then ensure_gateway_checkout o c code (checkout_of input delivery pricing payment)
    else answer payment

-- A payment of the delivery exists, or does not.
unfoldable pub create_or_reuse :
    Outside
    → Draws
    → GatewayCode
    → CreateRequest
    → DeliveryRow
    → Pricing
    → Option Payment
    → Db CustomerPayment
create_or_reuse o c code input delivery pricing none = do
  payment ← with_transaction (insert_payment c code input delivery pricing)
  checked_out ← ensure_gateway_checkout o c code (checkout_of input delivery pricing payment)
  respond input checked_out
create_or_reuse o c code input delivery pricing (some existing) =
    if payment_in (PaymentStatus.created ∷ PaymentStatus.pending ∷ PaymentStatus.paid ∷ [])
      existing.status
    then (do
      payment ← complete_checkout o c code input delivery pricing existing
      respond input payment)
    else throw (app_error payment_already_exists 409)

abbrev pub is_admin : UserRole → Bool
is_admin admin = true
is_admin customer = false

-- With the price known: the gateway must be ready, and the delivery's payment is made or reused.
abbrev pub create_priced :
    Outside → Draws → Surroundings → CreateRequest → DeliveryRow → Pricing → Db CustomerPayment
create_priced o c w input delivery pricing = do
  throw_if (not (gateway_ready w.gateway_code w.cashfree_configured))
      (app_error payment_gateway_not_configured 503)
  existing ← read (find_by_delivery_id input.delivery_id)
  create_or_reuse o c w.gateway_code input delivery pricing existing

-- The part of the call that no stored answer cuts short.
unfoldable pub create_payment_fresh :
    Outside → Draws → Surroundings → CreateRequest → Db CustomerPayment
create_payment_fresh o c w input = do
  delivery ←
      or_throw (load_authorized_delivery w.deliveries input.delivery_id input.user_id input.role)
        (app_error delivery_not_found 404)
  throw_if (not (same_status delivery.status option_ready)) (app_error payment_not_allowed 422)
  throw_if (not (delivery.customer_id == input.user_id) && not (is_admin input.role))
      (app_error forbidden 403)
  pricing ← resolve_authoritative_pricing w
  create_priced o c w input delivery pricing

-- An answer stored under the key serves the same request, and no other.
abbrev pub replay : CreateRequest → CreateKey → Db CustomerPayment
replay input cached = do
  throw_if
      (not (str_eq cached.request_hash input.request_hash)
        || not (cached.delivery_id == input.delivery_id))
      (app_error idempotency_conflict 409)
  answer cached.response_payload

abbrev pub stored_answer : CreateRequest → Option String → Db (Option CreateKey)
stored_answer input none = answer none
stored_answer input (some key) =
    if str_eq key "" then answer none else read (find_create_idempotency input.user_id key)

abbrev pub replay_or_create :
    Outside → Draws → Surroundings → CreateRequest → Option CreateKey → Db CustomerPayment
replay_or_create o c w input (some cached) = replay input cached
replay_or_create o c w input none = create_payment_fresh o c w input

unfoldable pub create_payment_for_delivery :
    Outside → Draws → Surroundings → CreateRequest → Db CustomerPayment
create_payment_for_delivery o c w input = do
  cached ← stored_answer input input.idempotency_key
  replay_or_create o c w input cached

unfoldable pub get_payment_for_delivery : List DeliveryRow → ℕ → ℕ → UserRole → Db CustomerPayment
get_payment_for_delivery deliveries delivery_id user_id role = do
  delivery ←
      or_throw (load_authorized_delivery deliveries delivery_id user_id role)
        (app_error delivery_not_found 404)
  found ← read (find_by_delivery_id delivery_id)
  payment ← or_throw found (app_error payment_not_found 404)
  latest ← read (find_latest_attempt payment.id)
  answer (to_customer_payment_dto payment latest)
