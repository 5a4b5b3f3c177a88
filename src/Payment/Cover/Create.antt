-- ===== src/Payment/Cover/Create.antt =====
-- The invariant through new payments and `ensureGatewayCheckout`.
use mathlib.Core.Path.{subst}
use doot_backend.Base.{
  ℕ, ◌≡◌, refl, inl, inr, ◌&&◌, Option, none, some, [], ◌∷◌, ◌==◌, arith, Bool-cases, Option-cases,
  get_or, is_some,
}
use doot_backend.Base.Table.{find}
use doot_backend.Payment.Types.{PaymentStatus, GatewayCode, Payment, Attempt}
use doot_backend.Payment.Transitions.{same_payment_status}
use doot_backend.Payment.Store.{
  Store, Failure, app_error, unique_violation, row_missing, other_error, answer, read, or_throw,
  catching, with_transaction, ◌>>=◌,
}
use doot_backend.Payment.Repository.Queries.{
  payment_id_of, attempt_id_of, find_by_id, find_by_delivery_id, find_latest_attempt,
}
use doot_backend.Payment.Repository.Writes.{
  status_patch, update_payment_status, NewAttempt, has_attempt, create_attempt, NewPayment,
  payment_row, create_payment,
}
use doot_backend.Payment.Service.Outside.{Draws, Outside, GatewayOrder}
use doot_backend.Payment.Service.Checkout.{
  Checkout, is_stub, has_checkout, order_input_of, on_order_error, order_patch, gone, first_attempt,
  ensure_attempt, after_order_update, store_order, stub_capture, settle_stub, order_at_gateway,
  to_pending, ensure_gateway_checkout,
}
use doot_backend.Payment.Cover.{IsCovered, IsValid}
use doot_backend.Payment.Cover.Rules.{
  Keeps, >>=-Keeps, >>-Keeps, catching-Keeps, with_transaction-Keeps, or_throw-Keeps,
}
use doot_backend.Payment.Cover.Ledger.{paid_back-le-active}
use doot_backend.Payment.Cover.Request.{IsFairOutside}
use doot_backend.Payment.Cover.Status.{update_payment_status-Keeps, mark_payment_paid-Keeps}

create_attempt-Keeps : (k now : ℕ) (input : NewAttempt) → Keeps (create_attempt k now input)
unfolding create_attempt
create_attempt-Keeps k now input s v =
    elim (Bool-cases (is_some (find attempt_id_of k s.attempts))) [
      | inl used ↦ rw used v
      | inr fresh ↦
          rw fresh
            (elim (Bool-cases (has_attempt input.payment_id input.attempt_number s.attempts)) [
              | inl taken ↦ rw taken v
              | inr free ↦ rw free (record { sound = v.sound; owned = v.owned })
            ])
    ]

-- A payment with a new id has no refunds.
new_payment-IsCovered :
    (k : ℕ) (input : NewPayment) (s : Store)
    → find payment_id_of k s.payments ≡ none
    → IsValid s
    → IsCovered s.refunds (payment_row k input)
new_payment-IsCovered k input s absent v =
    let zero = v.owned k absent in
    let less = paid_back-le-active k s.refunds in
    record {
      capped = omega (arith, zero);
      counted = omega (arith, zero, less);
      unpaid = λ u. zero;
      whole = λ u. refl;
      full = λ u. ground arith;
    }

new_payment-IsValid :
    (k : ℕ) (input : NewPayment) (s : Store)
    → find payment_id_of k s.payments ≡ none
    → IsValid s
    → IsValid (record s { payments = payment_row k input ∷ s.payments })
new_payment-IsValid k input s absent v = record {
  sound = λ j p e. elim (Bool-cases (k == j)) [
    | inl here ↦
        let q : payment_row k input ≡ p = ground (arith, e) in
        subst (IsCovered s.refunds) q (new_payment-IsCovered k input s absent v)
    | inr there ↦ v.sound j p (ground (arith, e))
  ];
  owned = λ j h. elim (Bool-cases (k == j)) [
    | inl here ↦ ground (arith, h)
    | inr there ↦ v.owned j (ground (arith, h))
  ];
}

pub create_payment-Keeps : (k : ℕ) (input : NewPayment) → Keeps (create_payment k input)
unfolding create_payment find_by_id
create_payment-Keeps k input s v = elim (Option-cases (find payment_id_of k s.payments)) [
  | inr (p, e) ↦ rw (e, create_payment, find_by_id) v
  | inl absent ↦
      rw (absent, create_payment, find_by_id)
        (elim (Bool-cases (is_some (find_by_delivery_id input.delivery_id s))) [
          | inl taken ↦ rw taken v
          | inr free ↦ rw free (new_payment-IsValid k input s absent v)
        ])
]

ensure_attempt-Keeps :
    (c : Draws) (input : Checkout) (order : GatewayOrder) (latest : Option Attempt)
    → Keeps (ensure_attempt c input order latest)
ensure_attempt-Keeps c input order (some a) = λ s v. v
ensure_attempt-Keeps c input order none =
    let row = first_attempt input order in
    >>-Keeps (create_attempt c.attempt_id c.now row) (answer tt)
      (create_attempt-Keeps c.attempt_id c.now row) (λ s v. v)

reread-Keeps : (k : ℕ) → Keeps (read (find_by_id k) >>= λ current. or_throw current gone)
reread-Keeps k s = or_throw-Keeps (find_by_id k s) gone s

after_order_update-Keeps :
    (c : Draws) (input : Checkout) (order : GatewayOrder) (latest : Option Attempt)
    (updated : Option Payment)
    → Keeps (after_order_update c input order latest updated)
after_order_update-Keeps c input order latest none = reread-Keeps input.payment.id
after_order_update-Keeps c input order latest (some updated) =
    >>-Keeps (ensure_attempt c input order latest)
      (read (find_by_id input.payment.id) >>= λ current. or_throw current gone)
      (ensure_attempt-Keeps c input order latest) (reread-Keeps input.payment.id)

store_order-Keeps :
    (c : Draws) (input : Checkout) (order : GatewayOrder) (latest : Option Attempt)
    → Keeps (store_order c input order latest)
unfolding store_order
store_order-Keeps c input order latest =
    >>=-Keeps (update_payment_status (order_patch input.payment.id order))
      (after_order_update c input order latest)
      (update_payment_status-Keeps (order_patch input.payment.id order)
        (record { from = λ x h. ground arith; to = refl; same = refl }))
      (after_order_update-Keeps c input order latest)

to_pending-Keeps : (p : Payment) → Keeps (to_pending p)
to_pending-Keeps p =
    let d = status_patch p.id (PaymentStatus.created ∷ []) PaymentStatus.pending in
    >>=-Keeps (update_payment_status d) (λ pending. answer (get_or pending p))
      (update_payment_status-Keeps d
        (record { from = λ x h. ground arith; to = refl; same = refl }))
      (λ pending s v. v)

on_order_error-Keeps : (e : Failure) → Keeps (on_order_error e)
on_order_error-Keeps (app_error code status) = λ s v. v
on_order_error-Keeps (unique_violation column) = λ s v. v
on_order_error-Keeps row_missing = λ s v. v
on_order_error-Keeps other_error = λ s v. v

module _ (o : Outside) (fair : IsFairOutside o) (c : Draws) where
  settle_stub-Keeps : (code : GatewayCode) (p : Payment) → Keeps (settle_stub o c code p)
  settle_stub-Keeps code p s v =
      elim (Bool-cases (is_stub code && same_payment_status p.status PaymentStatus.pending)) [
        | inl now ↦ rw now (mark_payment_paid-Keeps o fair.pause c (stub_capture p.id) s v)
        | inr later ↦ rw later v
      ]

  order_at_gateway-Keeps :
      (code : GatewayCode) (input : Checkout) → Keeps (order_at_gateway o c code input)
  unfolding order_at_gateway
  order_at_gateway-Keeps code input =
      let ask = o.create_payment_order code (order_input_of input) in
      >>=-Keeps (catching ask on_order_error)
        (λ order. read (find_latest_attempt input.payment.id) >>= λ latest.
          with_transaction (store_order c input order latest) >>= settle_stub o c code)
        (catching-Keeps ask on_order_error (fair.create_payment_order code (order_input_of input))
          on_order_error-Keeps)
        (λ order s.
          let latest = find_latest_attempt input.payment.id s in
          >>=-Keeps (with_transaction (store_order c input order latest)) (settle_stub o c code)
            (with_transaction-Keeps (store_order c input order latest)
              (store_order-Keeps c input order latest))
            (settle_stub-Keeps code) s)

  -- The gateway order of a payment is stored with the payments kept covered.
  pub ensure_gateway_checkout-Keeps :
      (code : GatewayCode) (input : Checkout) → Keeps (ensure_gateway_checkout o c code input)
  unfolding ensure_gateway_checkout
  ensure_gateway_checkout-Keeps code input s v =
      elim (Bool-cases (
        has_checkout input.payment
        && same_payment_status input.payment.status PaymentStatus.pending)) [
          | inl done ↦ rw done v
          | inr more ↦
              rw more
                (elim (Bool-cases (
                  has_checkout input.payment
                  && same_payment_status input.payment.status PaymentStatus.created)) [
                    | inl created ↦ rw created (to_pending-Keeps input.payment s v)
                    | inr bare ↦ rw bare (order_at_gateway-Keeps code input s v)
                  ])
        ]
