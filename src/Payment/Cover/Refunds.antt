-- ===== src/Payment/Cover/Refunds.antt =====
-- The invariant through `markRefundFailed` and `reserveActiveRefund`.
use doot_backend.Base.{
  ℕ, ◌≡◌, refl, sym, inl, inr, true, some, [], ◌∷◌, arith, Bool-cases, Option-cases,
}
use mathlib.Core.Path.{subst}
use doot_backend.Base.Table.{find, find-id}
use doot_backend.Payment.Number.{is_refund_within_paid_amount, is_refund_within_paid_amount-fits}
use doot_backend.Payment.Types.{PaymentStatus, Payment, Refund, truthy}
use doot_backend.Payment.Transitions.{payment_in}
use doot_backend.Payment.Store.{Store, answer, or_throw, with_transaction, ◌>>◌}
use doot_backend.Payment.Repository.Queries.{
  payment_id_of, find_by_id, find_refund_by_idempotency_key, sum_active_refund_amounts,
}
use doot_backend.Payment.Repository.RefundWrites.{update_refund_status, create_refund}
use doot_backend.Payment.Service.Outside.{Draws, Outside}
use doot_backend.Payment.Service.RefundSteps.{
  RefundRequest, created, existing, existing_reservation, refund_of, reserve_new_refund,
  reserve_after_lock, reserve_active_refund, mark_refund_failed, failed_patch,
}
use doot_backend.Payment.Cover.{IsValid}
use doot_backend.Payment.Cover.Rules.{
  query-Keeps, required-Keeps, bind-IsValid, Keeps, >>=-Keeps, >>-Keeps, with_transaction-Keeps,
  or_throw-Keeps,
}
use doot_backend.Payment.Cover.Steps.{update_refund_status-IsValid, create_refund-IsValid}

-- Failing a refund keeps the payments covered.
pub mark_refund_failed-Keeps : (c : Draws) (k : ℕ) → Keeps (mark_refund_failed c k)
unfolding mark_refund_failed
mark_refund_failed-Keeps c k =
    >>=-Keeps (update_refund_status (failed_patch c k)) (λ o. or_throw o _)
      (update_refund_status-IsValid (failed_patch c k) (λ j r hit. (ground arith, ground arith)))
      (λ o. or_throw-Keeps o _)

module _ (c : Draws) (input : RefundRequest) where
  -- The new row fits: the sum of the active refunds leaves room for it.
  insert-IsValid :
      (p : Payment) (s : Store)
      → find payment_id_of input.payment_id s.payments ≡ some p
      → payment_in (PaymentStatus.paid ∷ PaymentStatus.partially_refunded ∷ []) p.status ≡ true
      → is_refund_within_paid_amount p.amount (sum_active_refund_amounts p.id s) input.amount ≡ true
      → IsValid s
      → IsValid (create_refund c.refund_id c.now (refund_of input p) s).1
  unfolding sum_active_refund_amounts
  insert-IsValid p s e paid fits v =
      let own = find-id payment_id_of input.payment_id s.payments p e in
      create_refund-IsValid c.refund_id c.now (refund_of input p) p s
        (subst (λ j. find payment_id_of j s.payments ≡ some p) (sym own) e) refl refl paid
        (is_refund_within_paid_amount-fits p.amount (sum_active_refund_amounts p.id s) input.amount
          fits)
        v

  reserve_new_refund-Keeps : Keeps (reserve_new_refund c input)
  unfolding reserve_new_refund find_by_id
  reserve_new_refund-Keeps s v =
      elim (Option-cases (find payment_id_of input.payment_id s.payments)) [
        | inl absent ↦ rw absent v
        | inr (p, e) ↦
            rw e
              (elim (Bool-cases (
                payment_in (PaymentStatus.paid ∷ PaymentStatus.partially_refunded ∷ []) p.status)) [
                  | inl paid ↦ rw paid (elim (Bool-cases (truthy p.gateway_order_id)) [
                    | inl order ↦
                        rw order
                          (elim (Bool-cases (
                            is_refund_within_paid_amount p.amount (sum_active_refund_amounts p.id s)
                              input.amount)) [
                                | inl fits ↦ rw fits (
                                    bind-IsValid
                                      (create_refund c.refund_id c.now (refund_of input p))
                                      (λ r. answer (created r p)) s
                                      (insert-IsValid p s e paid fits v) (λ r t w. w))
                                | inr over ↦ rw over v
                              ])
                    | inr unset ↦ rw unset v
                  ])
                  | inr unpaid ↦ rw unpaid v
                ])
      ]

  existing_reservation-Keeps : (r : Refund) → Keeps (existing_reservation r)
  unfolding existing_reservation
  existing_reservation-Keeps r =
      required-Keeps (find_by_id r.payment_id) _ (λ p. answer (existing r p)) (λ p s v. v)

  reserve_after_lock-Keeps : Keeps (reserve_after_lock c input)
  unfolding reserve_after_lock
  reserve_after_lock-Keeps =
      query-Keeps (find_refund_by_idempotency_key input.idempotency_key) existing_reservation
        (reserve_new_refund c input) existing_reservation-Keeps reserve_new_refund-Keeps

  -- `reserveActiveRefund` keeps the payments covered, if what others commit during its wait for the
  -- lock does.
  pub reserve_active_refund-Keeps :
      (o : Outside)
      → Keeps (o.lock input.payment_id)
      → (s : Store) → IsValid s
      → IsValid (reserve_active_refund o c input s).1
  unfolding reserve_active_refund
  reserve_active_refund-Keeps o waits =
      let locked = with_transaction (reserve_after_lock c input) in
      query-Keeps (find_refund_by_idempotency_key input.idempotency_key) existing_reservation
        (o.lock input.payment_id >> locked) existing_reservation-Keeps
        (>>-Keeps (o.lock input.payment_id) locked waits
          (with_transaction-Keeps (reserve_after_lock c input) reserve_after_lock-Keeps))
