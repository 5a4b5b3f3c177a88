-- ===== src/Cancellation/Remaining.antt =====
-- The refund after a cancellation against the invariant of the payment tables:
-- src/modules/cancellation/cancellation-refund.ts.
use doot_backend.Base.{inl, inr, Option, none, some, [], ◌∷◌, ltb, Bool-cases}
use doot_backend.Payment.Number.{Number}
use doot_backend.Payment.Types.{PaymentStatus, Payment}
use doot_backend.Payment.Transitions.{payment_in}
use doot_backend.Payment.Store.{Store, Failure, answer, read, catching, ◌>>=◌}
use doot_backend.Payment.Repository.Queries.{
  find_by_delivery_id, find_refund_by_idempotency_key, sum_active_refund_amounts,
}
use doot_backend.Payment.Service.Outside.{Draws, Outside}
use doot_backend.Payment.Service.Refunds.{request_refund}
use doot_backend.Payment.Cover.{IsValid}
use doot_backend.Payment.Cover.Rules.{Keeps, query-Keeps, >>=-Keeps, >>-Keeps, catching-Keeps}
use doot_backend.Payment.Cover.Request.{IsFairOutside, request_refund-Keeps}
use doot_backend.Cancellation.Refunding.{
  Cancelled, cancel_key, summary_of, requested_summary, failed_summary, cancel_request,
  on_refund_error, request_remaining, remaining_of, refund_remaining, refund_if_paid,
  refund_prepaid_after_cancellation,
}

module _ (o : Outside) (fair : IsFairOutside o) (c : Draws) (input : Cancelled) where
  on_refund_error-Keeps :
      (p : Payment) (n : Number) (e : Failure) → Keeps (on_refund_error input p n e)
  on_refund_error-Keeps p n e =
      query-Keeps (find_refund_by_idempotency_key (cancel_key input.cancellation_id))
        (λ r. answer (some (summary_of r))) (answer (some (failed_summary n p.currency e)))
        (λ r s v. v) (λ s v. v)

  request_remaining-Keeps : (p : Payment) (n : Number) → Keeps (request_remaining o c input p n)
  request_remaining-Keeps p n =
      >>=-Keeps (request_refund o c (cancel_request input p n))
        (λ r. answer (some (requested_summary r)))
        (request_refund-Keeps o fair c (cancel_request input p n)) (λ r s v. v)

  refund_remaining-Keeps : (p : Payment) → Keeps (refund_remaining o c input p)
  unfolding refund_remaining
  refund_remaining-Keeps p s v =
      let n = remaining_of p (sum_active_refund_amounts p.id s) in
      elim (Bool-cases (ltb 0 n.double)) [
        | inr nothing ↦ rw nothing v
        | inl some_left ↦
            let tried = catching (request_remaining o c input p n) (on_refund_error input p n) in
            rw some_left (
              >>-Keeps o.pause tried fair.pause
                (catching-Keeps (request_remaining o c input p n) (on_refund_error input p n)
                  (request_remaining-Keeps p n) (on_refund_error-Keeps p n))
                s v)
      ]

  refund_if_paid-Keeps : (p : Option Payment) → Keeps (refund_if_paid o c input p)
  refund_if_paid-Keeps none = λ s v. v
  refund_if_paid-Keeps (some p) = λ s v.
      elim (Bool-cases
        (payment_in (PaymentStatus.paid ∷ PaymentStatus.partially_refunded ∷ []) p.status)) [
          | inl paid ↦ rw paid (refund_remaining-Keeps p s v)
          | inr unpaid ↦ rw unpaid v
        ]

  -- The refund after a cancellation keeps the payments covered on every branch, so long as what others commit while it waits
  -- keeps the payments covered and moves no refund to another payment.
  pub refund_prepaid_after_cancellation-Keeps :
      (s : Store) → IsValid s → IsValid (refund_prepaid_after_cancellation o c input s).1
  unfolding refund_prepaid_after_cancellation
  refund_prepaid_after_cancellation-Keeps =
      query-Keeps (find_refund_by_idempotency_key (cancel_key input.cancellation_id))
        (λ r. answer (some (summary_of r)))
        (read (find_by_delivery_id input.delivery_id) >>= refund_if_paid o c input) (λ r s v. v)
        (λ s. refund_if_paid-Keeps (find_by_delivery_id input.delivery_id s) s)
