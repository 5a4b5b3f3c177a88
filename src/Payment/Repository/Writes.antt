-- ===== src/Payment/Repository/Writes.antt =====
-- What the payment repository writes of payments and their attempts: src/modules/payment/payment.repository.ts.
-- A created row takes the id that the database draws for it, an argument here. A patch field that
-- is `none` stands for `undefined`, which leaves the column as it is.
use doot_backend.Base.{
  ℕ, Bool, true, false, ◌&&◌, Option, none, some, String, List, ◌∷◌, ◌==◌, if◌then◌else◌, is_some,
  get_or, any,
}
use doot_backend.Base.Table.{find, update}
use doot_backend.Payment.Types.{
  PaymentStatus, AttemptStatus, GatewayCode, PricingSource, Payment, Attempt, CreateKey,
}
use doot_backend.Payment.Transitions.{payment_in}
use doot_backend.Payment.Store.{UniqueColumn, unique_violation, row_missing, ok, err, Db}
use doot_backend.Payment.Repository.Queries.{
  payment_id_of, attempt_id_of, find_order, find_by_delivery_id, find_by_id,
  find_create_idempotency,
}

unfoldable pub save_create_idempotency : CreateKey → Db (Unit {0})
unfolding find_create_idempotency
save_create_idempotency x s =
    if is_some (find_create_idempotency x.customer_id x.key s)
    then (err (unique_violation UniqueColumn.create_key), s)
    else (ok tt, record s { create_keys = x ∷ s.create_keys })

pub record NewPayment : Type 0 where
  pub delivery_id : ℕ
  pub customer_id : ℕ
  pub amount : ℕ
  pub currency : String
  pub gateway : GatewayCode
  pub pricing_source : PricingSource

-- The row that `createPayment` inserts.
abbrev pub payment_row : ℕ → NewPayment → Payment
payment_row new_id input = record {
  id = new_id;
  delivery_id = input.delivery_id;
  customer_id = input.customer_id;
  amount = input.amount;
  currency = input.currency;
  status = PaymentStatus.created;
  gateway = input.gateway;
  gateway_order_id = none;
  gateway_payment_session_id = none;
  pricing_source = input.pricing_source;
  paid_at = none;
  failed_at = none;
  expired_at = none;
  refunded_amount = 0;
}

unfoldable pub create_payment : ℕ → NewPayment → Db Payment
unfolding find_by_id find_by_delivery_id
create_payment new_id input s =
    if is_some (find_by_id new_id s)
    then (err (unique_violation UniqueColumn.primary_key), s)
    else if is_some (find_by_delivery_id input.delivery_id s)
    then (err (unique_violation UniqueColumn.delivery_id), s)
    else (
      ok (payment_row new_id input),
      record s { payments = payment_row new_id input ∷ s.payments },
    )

pub record PaymentPatch : Type 0 where
  pub payment_id : ℕ
  pub from_statuses : List PaymentStatus
  pub to_status : PaymentStatus
  pub gateway_order_id : Option (Option String)
  pub gateway_payment_session_id : Option (Option String)
  pub paid_at : Option (Option ℕ)
  pub failed_at : Option (Option ℕ)
  pub expired_at : Option (Option ℕ)
  pub refunded_amount : Option ℕ

-- A patch that names the status alone.
abbrev pub status_patch : ℕ → List PaymentStatus → PaymentStatus → PaymentPatch
status_patch k from to = record {
  payment_id = k;
  from_statuses = from;
  to_status = to;
  gateway_order_id = none;
  gateway_payment_session_id = none;
  paid_at = none;
  failed_at = none;
  expired_at = none;
  refunded_amount = none;
}

abbrev pub patch_payment : PaymentPatch → Payment → Payment
patch_payment d p = record p {
  status = d.to_status;
  gateway_order_id = get_or d.gateway_order_id p.gateway_order_id;
  gateway_payment_session_id = get_or d.gateway_payment_session_id p.gateway_payment_session_id;
  paid_at = get_or d.paid_at p.paid_at;
  failed_at = get_or d.failed_at p.failed_at;
  expired_at = get_or d.expired_at p.expired_at;
  refunded_amount = get_or d.refunded_amount p.refunded_amount;
}

-- Another payment has the gateway order id that the patch writes.
abbrev pub order_taken : PaymentPatch → List Payment → Bool
order_taken d ps = elim (d.gateway_order_id) [
  | none ↦ false
  | some o ↦ elim o [
    | none ↦ false
    | some order ↦ elim (find_order order ps) [
      | none ↦ false
      | some p ↦ if p.id == d.payment_id then false else true
    ]
  ]
]

-- `updateMany` on the primary key and the statuses meets one row at most.
unfoldable pub update_payment_status : PaymentPatch → Db (Option Payment)
unfolding find_by_id
update_payment_status d s = elim (find_by_id d.payment_id s) [
  | none ↦ (ok none, s)
  | some p ↦
      if payment_in d.from_statuses p.status
      then (if order_taken d s.payments
          then (err (unique_violation UniqueColumn.gateway_order_id), s)
          else (
            ok (some (patch_payment d p)),
            record s { payments = update payment_id_of d.payment_id (patch_payment d) s.payments },
          ))
      else (ok none, s)
]

pub record NewAttempt : Type 0 where
  pub payment_id : ℕ
  pub attempt_number : ℕ
  pub amount : ℕ
  pub currency : String
  pub gateway_order_id : Option String
  pub status : Option AttemptStatus
  pub started_at : Option ℕ

abbrev pub has_attempt : ℕ → ℕ → List Attempt → Bool
has_attempt k n rows = any (λ a. a.payment_id == k && a.attempt_number == n) rows

unfoldable pub create_attempt : ℕ → ℕ → NewAttempt → Db Attempt
create_attempt new_id now input s =
    let row : Attempt = record {
      id = new_id;
      payment_id = input.payment_id;
      attempt_number = input.attempt_number;
      gateway_payment_id = none;
      gateway_order_id = input.gateway_order_id;
      status = get_or input.status AttemptStatus.created;
      amount = input.amount;
      currency = input.currency;
      payment_method = none;
      failure_code = none;
      failure_message = none;
      started_at = some (get_or input.started_at now);
      completed_at = none;
    } in
    if is_some (find attempt_id_of new_id s.attempts)
    then (err (unique_violation UniqueColumn.primary_key), s)
    else if has_attempt input.payment_id input.attempt_number s.attempts
    then (err (unique_violation UniqueColumn.attempt_number), s)
    else (ok row, record s { attempts = row ∷ s.attempts })

pub record AttemptPatch : Type 0 where
  pub attempt_id : ℕ
  pub status : AttemptStatus
  pub gateway_payment_id : Option (Option String)
  pub payment_method : Option (Option String)
  pub failure_code : Option (Option String)
  pub failure_message : Option (Option String)
  pub completed_at : Option (Option ℕ)

abbrev pub patch_attempt : AttemptPatch → Attempt → Attempt
patch_attempt d a = record a {
  status = d.status;
  gateway_payment_id = get_or d.gateway_payment_id a.gateway_payment_id;
  payment_method = get_or d.payment_method a.payment_method;
  failure_code = get_or d.failure_code a.failure_code;
  failure_message = get_or d.failure_message a.failure_message;
  completed_at = get_or d.completed_at a.completed_at;
}

unfoldable pub update_attempt : AttemptPatch → Db Attempt
update_attempt d s = elim (find attempt_id_of d.attempt_id s.attempts) [
  | none ↦ (err row_missing, s)
  | some a ↦ (
    ok (patch_attempt d a),
    record s { attempts = update attempt_id_of d.attempt_id (patch_attempt d) s.attempts },
  )
]
