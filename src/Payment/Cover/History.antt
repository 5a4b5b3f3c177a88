-- ===== src/Payment/Cover/History.antt =====
-- Every store that the calls of the payment service lead to.
use mathlib.Core.Path.{subst}
use doot_backend.Base.{ℕ, ◌≤◌, ◌≡◌, Option, some, [], String, arith}
use doot_backend.Base.Table.{find-id}
use doot_backend.Delivery.Tables.{no_deliveries}
use doot_backend.Payment.Types.{Payment}
use doot_backend.Payment.Store.{Store}
use doot_backend.Payment.Repository.Queries.{
  payment_id_of, find_by_id, sum_active_refund_amounts, sum_successful_refund_amounts,
}
use doot_backend.Payment.Service.Outside.{Draws, Outside}
use doot_backend.Payment.Service.RefundSteps.{RefundRequest, mark_refund_failed}
use doot_backend.Payment.Service.Settlement.{Settling, mark_refund_successful}
use doot_backend.Payment.Service.Refunds.{request_refund, reconcile_refund_status}
use doot_backend.Payment.Service.Status.{
  mark_payment_pending, mark_payment_expired, mark_payment_failed, Capture, mark_payment_paid,
}
use doot_backend.Payment.Service.Create.{CreateRequest, Surroundings, create_payment_for_delivery}
use doot_backend.Payment.Webhook.{Event, process}
use doot_backend.Payment.Cover.{active, paid_back, IsValid}
use doot_backend.Payment.Cover.Refunds.{mark_refund_failed-Keeps}
use doot_backend.Payment.Cover.Success.{mark_refund_successful-Keeps}
use doot_backend.Payment.Cover.Request.{
  IsFairOutside, request_refund-Keeps, reconcile_refund_status-Keeps,
}
use doot_backend.Payment.Cover.Status.{
  mark_payment_pending-Keeps, mark_payment_expired-Keeps, mark_payment_failed-Keeps,
  mark_payment_paid-Keeps,
}
use doot_backend.Payment.Cover.Requests.{create_payment_for_delivery-Keeps}
use doot_backend.Payment.Cover.Events.{process-Keeps}

pub data Call : Type 0 where
  create : Surroundings → CreateRequest → Call
  pending : ℕ → Option String → Call
  capture : Capture → Call
  decline : ℕ → Option String → Option String → Call
  expire : ℕ → Call
  refund : RefundRequest → Call
  reconcile : ℕ → Call
  refund_settled : Settling → Call
  refund_declined : ℕ → Call
  webhook : ℕ → Event → Call

-- The store after a call, whatever it answers or throws.
unfoldable pub run : Outside → Draws → Call → Store → Store
run o c (create w input) s = (create_payment_for_delivery o c w input s).1
run o c (pending k order) s = (mark_payment_pending k order s).1
run o c (capture input) s = (mark_payment_paid o c input s).1
run o c (decline k code message) s = (mark_payment_failed c k code message s).1
run o c (expire k) s = (mark_payment_expired c k s).1
run o c (refund input) s = (request_refund o c input s).1
run o c (reconcile k) s = (reconcile_refund_status o c k s).1
run o c (refund_settled input) s = (mark_refund_successful o c input s).1
run o c (refund_declined k) s = (mark_refund_failed c k s).1
run o c (webhook k event) s = (process o c k event s).1

abbrev pub empty_store : Store
empty_store = record {
  payments = [];
  attempts = [];
  refunds = [];
  ledger = [];
  create_keys = [];
  delivery_tables = no_deliveries;
}

-- The calls follow each other; what comes between the steps of one is in its surroundings.
pub data Reachable : Store → Type 1 where
  start : Reachable empty_store
  after :
      {s : Store}
      → Reachable s
      → (o : Outside) → IsFairOutside o
      → (c : Draws) (call : Call) → Reachable (run o c call s)

run-IsValid :
    (o : Outside)
    → IsFairOutside o
    → (c : Draws) (call : Call) (s : Store) → IsValid s
    → IsValid (run o c call s)
unfolding run
run-IsValid o fair c (create w input) = create_payment_for_delivery-Keeps o fair c w input
run-IsValid o fair c (pending k order) = mark_payment_pending-Keeps k order
run-IsValid o fair c (capture input) = mark_payment_paid-Keeps o fair.pause c input
run-IsValid o fair c (decline k code message) = mark_payment_failed-Keeps c k code message
run-IsValid o fair c (expire k) = mark_payment_expired-Keeps c k
run-IsValid o fair c (refund input) = request_refund-Keeps o fair c input
run-IsValid o fair c (reconcile k) = reconcile_refund_status-Keeps o fair c k
run-IsValid o fair c (refund_settled input) = mark_refund_successful-Keeps c input o fair.lock
run-IsValid o fair c (refund_declined k) = mark_refund_failed-Keeps c k
run-IsValid o fair c (webhook k event) = process-Keeps o fair c k event

-- Every store that calls of the payment service and of its webhook reach from the empty one is
-- valid, so long as what others commit during each call's waits keeps the payments covered and moves
-- no refund to another payment.
pub Reachable-IsValid : (s : Store) → Reachable s → IsValid s
Reachable-IsValid _ start = record {
  sound = λ k p e. ground (arith, e);
  owned = λ k e. ground arith;
}
Reachable-IsValid _ (after {s} r o fair c call) =
    run-IsValid o fair c call s (Reachable-IsValid s r)

-- In every store that calls of the payment service and of its webhook reach from the empty one,
-- under the assumptions of `Reachable` on what others commit, the refunds of a payment, those
-- underway included, never exceed its amount, and its refunded amount is the sum of those that
-- succeeded.
pub Reachable-capped :
    (s : Store) (k : ℕ) (p : Payment)
    → Reachable s
    → find_by_id k s ≡ some p
    → ((sum_active_refund_amounts k s).paise ≤ p.amount)
      × (p.refunded_amount ≡ (sum_successful_refund_amounts k s).paise)
unfolding find_by_id sum_active_refund_amounts sum_successful_refund_amounts
Reachable-capped s k p r e =
    let covered = (Reachable-IsValid s r).sound k p e in
    let own = find-id payment_id_of k s.payments p e in
    subst (λ j. (active j s.refunds ≤ p.amount) × (p.refunded_amount ≡ paid_back j s.refunds)) own
      (covered.capped, covered.counted)
