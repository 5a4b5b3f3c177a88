-- ===== src/Payment/Cover/Request.antt =====
-- The invariant through `requestRefund` and `reconcileRefundStatus`.
use doot_backend.Base.{ℕ, inl, inr, Option, none, some, String, arith, ltb, Bool-cases, or_else}
use doot_backend.Payment.Types.{Payment, Refund, GatewayCode, truthy}
use doot_backend.Payment.Store.{
  Store, Failure, app_error, other_error, refund_not_found, answer, throw, or_throw, catching,
  ◌>>=◌,
}
use doot_backend.Payment.Repository.Queries.{
  find_by_id, find_refund_by_id, find_refund_by_idempotency_key,
}
use doot_backend.Payment.Repository.RefundWrites.{update_refund_status}
use doot_backend.Payment.Service.Outside.{
  Draws, Outside, GatewayRefundStatus, GatewayRefundInput, GatewayRefundResult, GatewayOrderInput,
}
use doot_backend.Payment.Service.RefundSteps.{
  RefundRequest, reserve_active_refund, mark_refund_failed,
}
use doot_backend.Payment.Service.Refunds.{
  Reserved, finished, holding, to_reserved, is_refund_idempotency_key_conflict, on_reserve_conflict,
  Next, settle, fail, give, give_pending, next_of, pending_patch, refund_input_of, ask_gateway,
  ignoring, gateway_failure, on_gateway_error, settling_of, go_on, order_of, refund_at_gateway,
  after_reserve, reserve_once, request_refund, next_by_status, reconcile_at_gateway, text_of,
  is_settled, reconcile_found, reconcile_with, reconcile_refund_status,
}
use doot_backend.Payment.Cover.{IsValid}
use doot_backend.Payment.Cover.Rules.{
  Keeps, query-Keeps, required-Keeps, >>=-Keeps, >>-Keeps, catching-Keeps, or_throw-Keeps,
}
use doot_backend.Payment.Cover.Steps.{update_refund_status-IsValid}
use doot_backend.Payment.Cover.Refunds.{reserve_active_refund-Keeps, mark_refund_failed-Keeps}
use doot_backend.Payment.Cover.Success.{IsFair, mark_refund_successful-Keeps}

-- What is assumed of the others that commit while a call waits for the lock or for the gateway.
pub record IsFairOutside (o : Outside) : Type 0 where
  pub lock : (k : ℕ) → IsFair (o.lock k)
  pub create_refund : (g : GatewayCode) (i : GatewayRefundInput) → Keeps (o.create_refund g i)
  pub get_refund_status : (g : GatewayCode) (a b : String) → Keeps (o.get_refund_status g a b)
  pub create_payment_order :
      (g : GatewayCode) (i : GatewayOrderInput) → Keeps (o.create_payment_order g i)
  pub pause : Keeps o.pause

module _ (o : Outside) (fair : IsFairOutside o) (c : Draws) where
  give_pending-Keeps : (k : ℕ) (pending : Option Refund) → Keeps (give_pending k pending)
  unfolding give_pending
  give_pending-Keeps k pending s =
      >>=-Keeps (or_throw (or_else pending (find_refund_by_id k s)) other_error)
        (λ r. answer (give r))
        (or_throw-Keeps (or_else pending (find_refund_by_id k s)) other_error) (λ r t w. w) s

  next_of-Keeps :
      (result : GatewayRefundResult) (k : ℕ) (pending : Option Refund)
      (status : GatewayRefundStatus)
      → Keeps (next_of result k pending status)
  next_of-Keeps result k pending GatewayRefundStatus.success s v = v
  next_of-Keeps result k pending GatewayRefundStatus.failed s v = v
  next_of-Keeps result k pending GatewayRefundStatus.pending s v = give_pending-Keeps k pending s v

  pending-Keeps :
      (k : ℕ) (result : GatewayRefundResult) → Keeps (update_refund_status (pending_patch k result))
  pending-Keeps k result =
      update_refund_status-IsValid (pending_patch k result)
        (λ j r hit. (ground arith, ground arith))

  ask_gateway-Keeps :
      (input : RefundRequest) (r : Refund) (p : Payment) (order : String)
      → Keeps (ask_gateway o input r p order)
  unfolding ask_gateway
  ask_gateway-Keeps input r p order =
      >>=-Keeps (o.create_refund p.gateway (refund_input_of input r p order))
        (λ result. update_refund_status (pending_patch r.id result) >>= λ pending.
          next_of result r.id pending result.status)
        (fair.create_refund p.gateway (refund_input_of input r p order))
        (λ result.
          >>=-Keeps (update_refund_status (pending_patch r.id result))
            (λ pending. next_of result r.id pending result.status) (pending-Keeps r.id result)
            (λ pending. next_of-Keeps result r.id pending result.status))

  on_gateway_error-Keeps : (k : ℕ) (e : Failure) → Keeps (on_gateway_error c k e)
  unfolding on_gateway_error
  on_gateway_error-Keeps k e =
      >>-Keeps {B = Next} (ignoring (mark_refund_failed c k)) (throw (gateway_failure e))
        (mark_refund_failed-Keeps c k) (λ s v. v)

  go_on-Keeps : (k : ℕ) (next : Next) → Keeps (go_on o c k next)
  unfolding go_on
  go_on-Keeps k (settle result) = mark_refund_successful-Keeps c (settling_of k result) o fair.lock
  go_on-Keeps k fail = mark_refund_failed-Keeps c k
  go_on-Keeps k (give r) = λ s v. v

  order_of-Keeps : (order : Option String) → Keeps (order_of order)
  order_of-Keeps none s v = v
  order_of-Keeps (some order) s v = elim (Bool-cases (truthy (some order))) [
    | inl set_ ↦ rw set_ v
    | inr empty ↦ rw empty v
  ]

  refund_at_gateway-Keeps :
      (input : RefundRequest) (r : Refund) (p : Payment) → Keeps (refund_at_gateway o c input r p)
  unfolding refund_at_gateway
  refund_at_gateway-Keeps input r p =
      let asked =
        λ (order : String). catching (ask_gateway o input r p order) (on_gateway_error c r.id) in
      >>=-Keeps (order_of p.gateway_order_id) (λ order. asked order >>= go_on o c r.id)
        (order_of-Keeps p.gateway_order_id)
        (λ order.
          >>=-Keeps (asked order) (go_on o c r.id)
            (catching-Keeps (ask_gateway o input r p order) (on_gateway_error c r.id)
              (ask_gateway-Keeps input r p order) (on_gateway_error-Keeps r.id))
            (go_on-Keeps r.id))

  on_reserve_conflict-Keeps : (key : String) (e : Failure) → Keeps (on_reserve_conflict key e)
  on_reserve_conflict-Keeps key e s v = elim (Bool-cases (is_refund_idempotency_key_conflict e)) [
    | inr other ↦ rw other v
    | inl same ↦ rw same (
        query-Keeps (find_refund_by_idempotency_key key) (λ r. answer (finished r)) (throw e)
          (λ r t w. w) (λ t w. w) s v)
  ]

  after_reserve-Keeps : (input : RefundRequest) (x : Reserved) → Keeps (after_reserve o c input x)
  after_reserve-Keeps input (finished r) s v = v
  after_reserve-Keeps input (holding r p) s v = refund_at_gateway-Keeps input r p s v

  reserve_once-Keeps : (input : RefundRequest) → Keeps (reserve_once o c input)
  unfolding reserve_once
  reserve_once-Keeps input =
      let reserve = reserve_active_refund o c input >>= λ r. answer (to_reserved r) in
      catching-Keeps reserve (on_reserve_conflict input.idempotency_key)
        (>>=-Keeps (reserve_active_refund o c input) (λ r. answer (to_reserved r))
          (reserve_active_refund-Keeps c input o ((fair.lock input.payment_id).keeps)) (λ r t w. w))
        (on_reserve_conflict-Keeps input.idempotency_key)

  -- `requestRefund` keeps the payments covered on every branch: whatever the amount asked for,
  -- whatever the gateway answers or throws, and whatever the others commit during the waits, so
  -- long as they keep the payments covered and move no refund to another payment.
  pub request_refund-Keeps :
      (input : RefundRequest) (s : Store) → IsValid s → IsValid (request_refund o c input s).1
  unfolding request_refund
  request_refund-Keeps input s v = elim (Bool-cases (ltb 0 input.amount.double)) [
    | inr zero_amount ↦ rw zero_amount v
    | inl positive ↦ rw positive (
        query-Keeps (find_refund_by_idempotency_key input.idempotency_key) answer
          (reserve_once o c input >>= after_reserve o c input) (λ r t w. w)
          (>>=-Keeps (reserve_once o c input) (after_reserve o c input) (reserve_once-Keeps input)
            (after_reserve-Keeps input))
          s v)
  ]

  reconcile_at_gateway-Keeps :
      (r : Refund) (p : Payment) (order k : String) → Keeps (reconcile_at_gateway o c r p order k)
  unfolding reconcile_at_gateway
  reconcile_at_gateway-Keeps r p order k =
      >>=-Keeps (o.get_refund_status p.gateway order k)
        (λ result. go_on o c r.id (next_by_status r result result.status))
        (fair.get_refund_status p.gateway order k)
        (λ result. go_on-Keeps r.id (next_by_status r result result.status))

  reconcile_with-Keeps : (r : Refund) (p : Option Payment) → Keeps (reconcile_with o c r p)
  unfolding reconcile_with
  reconcile_with-Keeps r none = λ s v. v
  reconcile_with-Keeps r (some p) = λ s v. elim (Bool-cases (truthy p.gateway_order_id)) [
    | inl set_ ↦ rw set_ (
        reconcile_at_gateway-Keeps r p (text_of p.gateway_order_id) (text_of r.gateway_refund_id) s
          v)
    | inr unset ↦ rw unset v
  ]

  -- `reconcileRefundStatus` keeps the payments covered on every branch, so long as what others commit while it waits
  -- keeps the payments covered and moves no refund to another payment.
  pub reconcile_refund_status-Keeps :
      (k : ℕ) (s : Store) → IsValid s → IsValid (reconcile_refund_status o c k s).1
  unfolding reconcile_refund_status
  reconcile_refund_status-Keeps k =
      required-Keeps (find_refund_by_id k) (app_error refund_not_found 404) (reconcile_found o c)
        (λ r s v. elim (Bool-cases (is_settled r)) [
          | inl done ↦ rw done v
          | inr more ↦ rw more (reconcile_with-Keeps r (find_by_id r.payment_id s) s v)
        ])
