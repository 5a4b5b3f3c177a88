-- ===== src/Payment/Cover/Success.antt =====
-- The invariant through `markRefundSuccessful` as a whole.
use mathlib.Core.Path.{subst}
use doot_backend.Base.{
  sym, ℕ, ◌≡◌, inl, inr, Option, none, some, if◌then◌else◌, Bool-cases, Option-cases,
}
use doot_backend.Base.Table.{find, find-id}
use doot_backend.Payment.Number.{
  Number, number_of, plus, is_refund_within_paid_amount, is_refund_within_paid_amount-fits,
}
use doot_backend.Payment.Types.{RefundStatus, Payment, Refund, LedgerKey, LedgerEntry}
use doot_backend.Payment.Transitions.{
  refund_in, same_refund_status, can_transition_payment, can_transition_refund,
}
use doot_backend.Payment.Store.{
  Store, Failure, app_error, unique_violation, row_missing, other_error, Db, answer, throw,
  with_transaction, ◌>>◌,
}
use doot_backend.Payment.Repository.Queries.{
  payment_id_of, refund_id_of, find_by_id, find_refund_by_id, find_ledger_by_idempotency_key,
}
use doot_backend.Payment.Repository.RefundWrites.{update_refund_status}
use doot_backend.Payment.Service.Outside.{Draws, Outside}
use doot_backend.Payment.Service.Settlement.{
  refunded_status, refund_patch_of, after_refund_update, reconcile_successful_refund_record,
  Settling, settle_refund, finalize_after_lock, finalize_refund_success_in_transaction,
  on_settle_conflict, mark_refund_successful,
}
use doot_backend.Payment.Cover.{IsValid}
use doot_backend.Payment.Cover.Rules.{
  Keeps, bind_ok-IsValid, query-Keeps, catching-Keeps, with_transaction-Keeps,
  then_transaction-IsValid,
}
use doot_backend.Payment.Cover.Settlement.{
  reconcile_successful_refund_record-Keeps, reconcile_again-Keeps,
}
use doot_backend.Payment.Cover.Finalize.{
  open_statuses, with_paid, paid_row, paid-update, paid_update_miss, settle_payment-IsValid,
}

-- What the others do during the wait for the lock keeps the invariant, and moves no refund to
-- another payment.
pub record IsFair (lock : Db (Unit {0})) : Type 0 where
  pub keeps : Keeps lock
  pub steady :
      (s : Store) (k : ℕ) (r r' : Refund)
      → find_refund_by_id k s ≡ some r
      → find_refund_by_id k (lock s).1 ≡ some r'
      → r'.payment_id ≡ r.payment_id

module _ (c : Draws) (input : Settling) where
  -- A refund that is neither open nor a success is left alone.
  closed-IsValid :
      (p : Payment) (r : Refund) (n : Number) (known : Option LedgerEntry) (key : LedgerKey)
      → Keeps (after_refund_update c p r.id n known key none)
  unfolding after_refund_update find_refund_by_id
  closed-IsValid p r n known key s v = elim (Option-cases (find refund_id_of r.id s.refunds)) [
    | inl absent ↦ rw absent v
    | inr (q, e) ↦ rw e (elim (Bool-cases (same_refund_status q.status RefundStatus.success)) [
      | inl yes_ ↦ rw yes_ (reconcile_again-Keeps c q known key s v)
      | inr no_ ↦ rw no_ v
    ])
  ]

  settle_refund-IsValid :
      (k : ℕ) (r : Refund) (known : Option LedgerEntry) (key : LedgerKey) (s : Store)
      → find refund_id_of r.id s.refunds ≡ some r
      → r.payment_id ≡ k
      → IsValid s
      → IsValid (settle_refund c input k r known key s).1
  unfolding settle_refund find_by_id
  settle_refund-IsValid k r known key s f own v =
      elim (Option-cases (find payment_id_of k s.payments)) [
        | inl absent ↦ rw absent v
        | inr (p, e) ↦
            let n = plus (number_of p.refunded_amount) (number_of r.amount) in
            let gid = input.gateway_refund_id in
            let ref = input.gateway_refund_reference in
            let d = refund_patch_of c r.id gid ref in
            let rest = after_refund_update c p r.id n known key in
            rw e
              (elim (Bool-cases (
                is_refund_within_paid_amount p.amount (number_of p.refunded_amount)
                  (number_of r.amount))) [
                    | inr over ↦ rw over v
                    | inl fits ↦
                        rw fits
                          (elim (Bool-cases
                            (can_transition_payment p.status (refunded_status n p.amount))) [
                              | inr blocked ↦ rw blocked v
                              | inl may ↦
                                  rw may (elim (Bool-cases (refund_in open_statuses r.status)) [
                                    | inl open_ ↦
                                        bind_ok-IsValid (update_refund_status d) rest s
                                          (with_paid c gid ref r.id s)
                                          (some (paid_row c gid ref r.id r))
                                          (paid-update c gid ref r.id r s f open_)
                                          (unfold after_refund_update in
                                            settle_payment-IsValid c gid ref s p r r.id k e f own
                                              open_
                                              (is_refund_within_paid_amount-fits p.amount
                                                (number_of p.refunded_amount) (number_of r.amount)
                                                fits)
                                              may v key)
                                    | inr shut ↦
                                        bind_ok-IsValid (update_refund_status d) rest s s none
                                          (paid_update_miss c gid ref r.id r s f shut)
                                          (closed-IsValid p r n known key s v)
                                  ])
                            ])
                  ])
      ]

  -- The refund is read again under the lock, with the payment that it had before.
  finalize_after_lock-IsValid :
      (before : Refund) (known : Option LedgerEntry) (s : Store)
      → ((r : Refund)
          → find_refund_by_id input.refund_id s ≡ some r
          → r.payment_id ≡ before.payment_id)
      → IsValid s
      → IsValid (finalize_after_lock c input before known s).1
  unfolding finalize_after_lock find_refund_by_id
  finalize_after_lock-IsValid before known s own v =
      elim (Option-cases (find refund_id_of input.refund_id s.refunds)) [
        | inl absent ↦ rw absent v
        | inr (r, e) ↦
            let id_is = find-id refund_id_of input.refund_id s.refunds r e in
            let e' = subst (λ j. find refund_id_of j s.refunds ≡ some r) (sym id_is) e in
            let key = LedgerKey.refund before.id in
            rw e (elim (Bool-cases (same_refund_status r.status RefundStatus.success)) [
              | inl paid ↦ rw paid (reconcile_again-Keeps c r known key s v)
              | inr unpaid ↦
                  rw unpaid (settle_refund-IsValid before.payment_id r known key s e' (own r e) v)
            ])
      ]

  locked-IsValid :
      (lock : Db (Unit {0})) (before : Refund) (known : Option LedgerEntry) (s : Store)
      → IsFair lock
      → find_refund_by_id input.refund_id s ≡ some before
      → IsValid s
      → IsValid ((lock >> with_transaction (finalize_after_lock c input before known)) s).1
  locked-IsValid lock before known s fair e v =
      then_transaction-IsValid lock (finalize_after_lock c input before known) s (fair.keeps s v) (
        finalize_after_lock-IsValid before known (lock s).1
          (λ r h. fair.steady s input.refund_id before r e h))

  finalize-Keeps :
      (o : Outside)
      → ((k : ℕ) → IsFair (o.lock k))
      → Keeps (finalize_refund_success_in_transaction o c input)
  unfolding finalize_refund_success_in_transaction
  finalize-Keeps o fair s v = elim (Option-cases (find_refund_by_id input.refund_id s)) [
    | inl absent ↦ rw (absent, finalize_refund_success_in_transaction) v
    | inr (r, e) ↦
        let known = find_ledger_by_idempotency_key (LedgerKey.refund r.id) s in
        rw (e, finalize_refund_success_in_transaction)
          (elim (Bool-cases (same_refund_status r.status RefundStatus.success)) [
            | inl paid ↦ rw paid (
                with_transaction-Keeps
                  (reconcile_successful_refund_record c r known (LedgerKey.refund r.id))
                  (reconcile_successful_refund_record-Keeps c r known (LedgerKey.refund r.id)) s v)
            | inr unpaid ↦
                rw unpaid (elim (Bool-cases (can_transition_refund r.status RefundStatus.success)) [
                  | inr blocked ↦ rw blocked v
                  | inl may ↦
                      rw may
                        (locked-IsValid (o.lock r.payment_id) r known s (fair r.payment_id) e v)
                ])
          ])
  ]

  on_settle_conflict-Keeps : (k : ℕ) (e : Failure) → Keeps (on_settle_conflict k e)
  unfolding on_settle_conflict
  on_settle_conflict-Keeps k (unique_violation column) =
      query-Keeps (find_refund_by_id k)
        (λ r.
          if same_refund_status r.status RefundStatus.success
          then answer r
          else throw (unique_violation column))
        (throw (unique_violation column))
        (λ r s v. elim (Bool-cases (same_refund_status r.status RefundStatus.success)) [
          | inl paid ↦ rw paid v
          | inr unpaid ↦ rw unpaid v
        ])
        (λ s v. v)
  on_settle_conflict-Keeps k (app_error code status) = λ s v. v
  on_settle_conflict-Keeps k row_missing = λ s v. v
  on_settle_conflict-Keeps k other_error = λ s v. v

  -- Settling a refund keeps the payments covered on every branch, if the others that commit during
  -- the wait for the lock keep them covered and move no refund to another payment.
  pub mark_refund_successful-Keeps :
      (o : Outside)
      → ((k : ℕ) → IsFair (o.lock k))
      → (s : Store) → IsValid s
      → IsValid (mark_refund_successful o c input s).1
  unfolding mark_refund_successful
  mark_refund_successful-Keeps o fair =
      catching-Keeps (finalize_refund_success_in_transaction o c input)
        (on_settle_conflict input.refund_id) (finalize-Keeps o fair)
        (on_settle_conflict-Keeps input.refund_id)
