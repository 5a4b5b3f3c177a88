-- ===== src/Payment/Cover/Events.antt =====
-- The invariant through the events of the payment gateway.
use doot_backend.Base.{ℕ, inl, inr, not, Option, none, some, String, ◌==◌, Bool-cases}
use text.Mathlib.Text.{◌==◌ as str_eq}
use doot_backend.Payment.Types.{RefundStatus, Payment, Refund}
use doot_backend.Payment.Transitions.{same_refund_status}
use doot_backend.Payment.Store.{
  Store, app_error, webhook_malformed, refund_not_found, payment_gateway_mismatch, Db, answer, read,
  or_throw, ◌>>=◌, ◌>>◌, throw_if,
}
use doot_backend.Payment.Repository.Queries.{find_by_id, find_refund_by_gateway_refund_id}
use doot_backend.Payment.Service.Outside.{Draws, Outside}
use doot_backend.Payment.Service.RefundSteps.{mark_refund_failed}
use doot_backend.Payment.Service.Settlement.{mark_refund_successful}
use doot_backend.Payment.Service.Status.{
  mark_payment_pending, mark_payment_failed, mark_payment_paid,
}
use doot_backend.Payment.Webhook.{
  EventType, payment_success, payment_failed, payment_pending, refund_success, refund_failed, other,
  Event, is_paid, settling_from, is_refund_success, apply_refund_event, refund_id_of_event,
  process_refund_event, capture_of, unless_paid, process_by, process,
}
use doot_backend.Payment.Cover.{IsValid}
use doot_backend.Payment.Cover.Rules.{Keeps, required-Keeps, >>=-Keeps, >>-Keeps, throw_if-Keeps}
use doot_backend.Payment.Cover.Refunds.{mark_refund_failed-Keeps}
use doot_backend.Payment.Cover.Success.{mark_refund_successful-Keeps}
use doot_backend.Payment.Cover.Request.{IsFairOutside}
use doot_backend.Payment.Cover.Status.{
  mark_payment_pending-Keeps, mark_payment_failed-Keeps, mark_payment_paid-Keeps,
}

-- The answer of a call dropped.
void-Keeps : {A : Type 0} → (m : Db A) → Keeps m → Keeps (m >> answer tt)
void-Keeps m h = >>-Keeps m (answer tt) h (λ s v. v)

unless_paid-Keeps : (k : ℕ) (m : Db Payment) → Keeps m → Keeps (unless_paid k m)
unless_paid-Keeps k m h s v = elim (Bool-cases (is_paid (find_by_id k s))) [
  | inl paid ↦ rw paid v
  | inr unpaid ↦ rw unpaid (void-Keeps m h s v)
]

refund_id_of_event-Keeps : (id : Option String) → Keeps (refund_id_of_event id)
refund_id_of_event-Keeps none = λ s v. v
refund_id_of_event-Keeps (some id) =
    throw_if-Keeps (str_eq id "") (app_error webhook_malformed 422) (answer id) (λ s v. v)

module _ (o : Outside) (fair : IsFairOutside o) (c : Draws) where
  apply_refund_event-Keeps :
      (type : EventType) (r : Refund) (id : String) → Keeps (apply_refund_event o c type r id)
  unfolding apply_refund_event
  apply_refund_event-Keeps type r id s v =
      elim (Bool-cases (same_refund_status r.status RefundStatus.success)) [
        | inl settled ↦ rw settled v
        | inr unsettled ↦ rw unsettled (elim (Bool-cases (is_refund_success type)) [
          | inl success ↦ rw success (
              void-Keeps (mark_refund_successful o c (settling_from r id))
                (mark_refund_successful-Keeps c (settling_from r id) o fair.lock) s v)
          | inr failure ↦
              rw failure (elim (Bool-cases (same_refund_status r.status RefundStatus.failed)) [
                | inl failed ↦ rw failed v
                | inr open_ ↦
                    rw open_
                      (void-Keeps (mark_refund_failed c r.id) (mark_refund_failed-Keeps c r.id) s v)
              ])
        ])
      ]

  process_refund_event-Keeps : (k : ℕ) (event : Event) → Keeps (process_refund_event o c k event)
  unfolding process_refund_event
  process_refund_event-Keeps k event =
      let mismatched = λ (r : Refund). not (r.payment_id == k) in
      let apply = λ (id : String) (r : Refund).
        throw_if (mismatched r) (app_error payment_gateway_mismatch 409)
        >> apply_refund_event o c event.event_type r id in
      >>=-Keeps (refund_id_of_event event.gateway_refund_id)
        (λ id. read (find_refund_by_gateway_refund_id id) >>= λ found.
          or_throw found (app_error refund_not_found 404) >>= apply id)
        (refund_id_of_event-Keeps event.gateway_refund_id)
        (λ id.
          required-Keeps (find_refund_by_gateway_refund_id id) (app_error refund_not_found 404)
            (apply id)
            (λ r.
              throw_if-Keeps (mismatched r) (app_error payment_gateway_mismatch 409)
                (apply_refund_event o c event.event_type r id)
                (apply_refund_event-Keeps event.event_type r id)))

  process_by-Keeps :
      (k : ℕ) (event : Event) (type : EventType) → Keeps (process_by o c k event type)
  process_by-Keeps k event payment_success =
      void-Keeps (mark_payment_paid o c (capture_of k event))
        (mark_payment_paid-Keeps o fair.pause c (capture_of k event))
  process_by-Keeps k event payment_failed =
      unless_paid-Keeps k (mark_payment_failed c k event.failure_code event.failure_message)
        (mark_payment_failed-Keeps c k event.failure_code event.failure_message)
  process_by-Keeps k event payment_pending =
      unless_paid-Keeps k (mark_payment_pending k (some event.gateway_order_id))
        (mark_payment_pending-Keeps k (some event.gateway_order_id))
  process_by-Keeps k event refund_success = process_refund_event-Keeps k event
  process_by-Keeps k event refund_failed = process_refund_event-Keeps k event
  process_by-Keeps k event other = λ s v. v

  -- An event of the gateway keeps the payments covered, whichever it is, so long as what others commit while it waits
  -- keeps the payments covered and moves no refund to another payment.
  pub process-Keeps :
      (k : ℕ) (event : Event) (s : Store) → IsValid s → IsValid (process o c k event s).1
  unfolding process
  process-Keeps k event = process_by-Keeps k event event.event_type
