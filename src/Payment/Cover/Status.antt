-- ===== src/Payment/Cover/Status.antt =====
-- The invariant through changes of the status of a payment that is not paid yet:
-- `markPaymentPending`, `markPaymentPaid`, `markPaymentFailed` and `markPaymentExpired`.
use mathlib.Core.Path.{subst}
use doot_backend.Base.{
  sym, ℕ, ◌≡◌, refl, inl, inr, true, not, Option, none, some, String, ◌∷◌, arith, Bool-cases,
  Option-cases, get_or,
}
use doot_backend.Base.Table.{find, update, find-id}
use doot_backend.Payment.Types.{PaymentStatus, Payment, Attempt, LedgerKey, LedgerEntry}
use doot_backend.Payment.Transitions.{payment_in, can_transition_payment, same_payment_status}
use doot_backend.Payment.Store.{
  Store, Failure, app_error, unique_violation, row_missing, other_error, payment_not_found,
  internal_error, answer, read, or_throw, catching, with_transaction, ◌>>=◌, ◌>>◌, throw_if,
}
use doot_backend.Payment.Repository.Queries.{
  payment_id_of, attempt_id_of, find_by_id, find_latest_attempt, find_ledger_by_idempotency_key,
}
use doot_backend.Payment.Repository.Writes.{
  PaymentPatch, patch_payment, order_taken, update_payment_status, AttemptPatch, update_attempt,
}
use doot_backend.Payment.Repository.RefundWrites.{create_ledger_entry}
use doot_backend.Payment.Service.Outside.{Draws, Outside}
use doot_backend.Payment.Service.Status.{
  transition_payment, pending_payment_patch, mark_payment_pending, expired_payment_patch,
  mark_payment_expired, failed_payment_patch, failed_attempt_patch, fail_attempt,
  succeeded_attempt_patch, mark_payment_failed, Capture, paid_patch, succeed_attempt, payment_entry,
  paid_or, invalid_transition, after_paid_update, capture_payment, on_capture_conflict,
  capture_once, after_ledger_check, capture_found, mark_payment_paid,
}
use doot_backend.Payment.Cover.{unpaid_statuses, IsCovered, IsSound, IsValid}
use doot_backend.Payment.Cover.Rules.{
  Keeps, required-Keeps, >>=-Keeps, >>-Keeps, catching-Keeps, with_transaction-Keeps,
  or_throw-Keeps,
}
use doot_backend.Payment.Cover.Rows.{payment-HasNoOrphan}
use doot_backend.Payment.Cover.Ledger.{
  create_ledger_entry-Keeps, replace-IsSound, paid_back-le-active,
}

-- A patch from statuses before the payment to one of those, or to PAID, that leaves the refunded
-- amount.
pub record IsBeforeRefunds (d : PaymentPatch) : Type 0 where
  pub from :
      (x : PaymentStatus)
      → payment_in d.from_statuses x ≡ true
      → payment_in unpaid_statuses x ≡ true
  pub to : payment_in (PaymentStatus.paid ∷ unpaid_statuses) d.to_status ≡ true
  pub same : d.refunded_amount ≡ none

before-IsCovered :
    (d : PaymentPatch) (p : Payment) (s : Store)
    → IsBeforeRefunds d
    → payment_in d.from_statuses p.status ≡ true
    → IsCovered s.refunds p
    → IsCovered s.refunds (patch_payment d p)
before-IsCovered d p s b hit h =
    let none_active = h.unpaid (b.from p.status hit) in
    let less = paid_back-le-active p.id s.refunds in
    let zero : p.refunded_amount ≡ 0 = omega (arith, h.counted) in
    rw b.same (record {
      capped = h.capped;
      counted = h.counted;
      unpaid = λ u. none_active;
      whole = λ u. zero;
      full = λ u. ground (arith, b.to);
    })

pub update_payment_status-Keeps :
    (d : PaymentPatch) → IsBeforeRefunds d → Keeps (update_payment_status d)
unfolding update_payment_status find_by_id
update_payment_status-Keeps d b s v =
    elim (Option-cases (find payment_id_of d.payment_id s.payments)) [
      | inl absent ↦ rw (absent, update_payment_status, find_by_id) v
      | inr (p, e) ↦
          rw (e, update_payment_status, find_by_id)
            (elim (Bool-cases (payment_in d.from_statuses p.status)) [
              | inr miss ↦ rw miss v
              | inl hit ↦ rw hit (elim (Bool-cases (order_taken d s.payments)) [
                | inl taken ↦ rw taken v
                | inr free ↦ rw free (patched-IsValid d b s p e hit v)
              ])
            ])
    ]
  where
    patched-IsValid :
        (d : PaymentPatch)
        → IsBeforeRefunds d
        → (s : Store) (p : Payment) → find payment_id_of d.payment_id s.payments ≡ some p
        → payment_in d.from_statuses p.status ≡ true
        → IsValid s
        → IsValid
            (record s { payments = update payment_id_of d.payment_id (patch_payment d) s.payments })
    patched-IsValid d b s p e hit v =
        let own = find-id payment_id_of d.payment_id s.payments p e in
        let e' = subst (λ j. find payment_id_of j s.payments ≡ some p) (sym own) e in
        let covered = before-IsCovered d p s b hit (v.sound d.payment_id p e) in
        let replaced =
          replace-IsSound s.payments s.refunds p (patch_payment d) e' (λ x. refl) covered v.sound in
        record {
          sound =
              subst (λ j. IsSound (update payment_id_of j (patch_payment d) s.payments) s.refunds)
                own replaced;
          owned =
              payment-HasNoOrphan s.payments s.refunds d.payment_id (patch_payment d) (λ x. refl)
                v.owned;
        }

transition_payment-Keeps : (d : PaymentPatch) → IsBeforeRefunds d → Keeps (transition_payment d)
unfolding transition_payment
transition_payment-Keeps d b =
    required-Keeps (find_by_id d.payment_id) (app_error payment_not_found 404)
      (λ current.
        throw_if (not (can_transition_payment current.status d.to_status)) invalid_transition
        >> (update_payment_status d >>= λ updated. or_throw updated invalid_transition))
      (λ current s v. elim (Bool-cases (can_transition_payment current.status d.to_status)) [
        | inr blocked ↦ rw blocked v
        | inl open_ ↦ rw open_ (
            >>=-Keeps (update_payment_status d) (λ updated. or_throw updated invalid_transition)
              (update_payment_status-Keeps d b)
              (λ updated. or_throw-Keeps updated invalid_transition) s v)
      ])

update_attempt-Keeps : (d : AttemptPatch) → Keeps (update_attempt d)
unfolding update_attempt
update_attempt-Keeps d s v = elim (Option-cases (find attempt_id_of d.attempt_id s.attempts)) [
  | inl absent ↦ rw (absent, update_attempt) v
  | inr (a, e) ↦ rw (e, update_attempt) (record { sound = v.sound; owned = v.owned })
]

-- `markPaymentPending` keeps the payments covered.
pub mark_payment_pending-Keeps :
    (k : ℕ) (order : Option String) → Keeps (mark_payment_pending k order)
unfolding mark_payment_pending
mark_payment_pending-Keeps k order =
    transition_payment-Keeps (pending_payment_patch k order)
      (record { from = λ x h. ground arith; to = refl; same = refl })

-- `markPaymentExpired` keeps the payments covered.
pub mark_payment_expired-Keeps : (c : Draws) (k : ℕ) → Keeps (mark_payment_expired c k)
unfolding mark_payment_expired
mark_payment_expired-Keeps c k =
    transition_payment-Keeps (expired_payment_patch c k)
      (record { from = λ x h. ground arith; to = refl; same = refl })

fail_attempt-Keeps :
    (c : Draws) (code message : Option String) (latest : Option Attempt)
    → Keeps (fail_attempt c code message latest)
fail_attempt-Keeps c code message none = λ s v. v
fail_attempt-Keeps c code message (some a) =
    let write = update_attempt (failed_attempt_patch c code message a.id) in
    >>-Keeps write (answer tt) (update_attempt-Keeps (failed_attempt_patch c code message a.id))
      (λ s v. v)

-- `markPaymentFailed` keeps the payments covered.
pub mark_payment_failed-Keeps :
    (c : Draws) (k : ℕ) (code message : Option String)
    → Keeps (mark_payment_failed c k code message)
unfolding mark_payment_failed
mark_payment_failed-Keeps c k code message =
    >>=-Keeps (transition_payment (failed_payment_patch c k))
      (λ payment. read (find_latest_attempt payment.id) >>= λ latest.
        fail_attempt c code message latest >> answer payment)
      (transition_payment-Keeps (failed_payment_patch c k)
        (record { from = λ x h. ground arith; to = refl; same = refl }))
      (λ payment s.
        >>-Keeps (fail_attempt c code message (find_latest_attempt payment.id s)) (answer payment)
          (fail_attempt-Keeps c code message (find_latest_attempt payment.id s)) (λ t w. w) s)

succeed_attempt-Keeps :
    (c : Draws) (input : Capture) (latest : Option Attempt) → Keeps (succeed_attempt c input latest)
succeed_attempt-Keeps c input none = λ s v. v
succeed_attempt-Keeps c input (some a) =
    let write = update_attempt (succeeded_attempt_patch c input a.id) in
    >>-Keeps write (answer tt) (update_attempt-Keeps (succeeded_attempt_patch c input a.id))
      (λ s v. v)

paid_or-Keeps : (e : Failure) (p : Option Payment) → Keeps (paid_or e p)
paid_or-Keeps e none = λ s v. v
paid_or-Keeps e (some p) = λ s v.
    elim (Bool-cases (same_payment_status p.status PaymentStatus.paid)) [
      | inl paid ↦ rw paid v
      | inr other ↦ rw other v
    ]

module _ (o : Outside) (c : Draws) (input : Capture) (payment : Payment) where
  after_paid_update-Keeps :
      (latest : Option Attempt) (key : LedgerKey) (updated : Option Payment)
      → Keeps (after_paid_update c input payment latest key updated)
  after_paid_update-Keeps latest key none =
      λ s. paid_or-Keeps invalid_transition (find_by_id payment.id s) s
  after_paid_update-Keeps latest key (some updated) =
      let enter = create_ledger_entry c.ledger_id (payment_entry payment key) in
      >>-Keeps (succeed_attempt c input latest) (enter >> answer updated)
        (succeed_attempt-Keeps c input latest)
        (>>-Keeps enter (answer updated)
          (create_ledger_entry-Keeps c.ledger_id (payment_entry payment key)) (λ s v. v))

  capture_payment-Keeps :
      (latest : Option Attempt) (key : LedgerKey)
      → Keeps (capture_payment c input payment latest key)
  unfolding capture_payment
  capture_payment-Keeps latest key =
      >>=-Keeps (update_payment_status (paid_patch c payment.id))
        (after_paid_update c input payment latest key)
        (update_payment_status-Keeps (paid_patch c payment.id)
          (record { from = λ x h. ground arith; to = refl; same = refl }))
        (after_paid_update-Keeps latest key)

  on_capture_conflict-Keeps : (e : Failure) → Keeps (on_capture_conflict payment.id e)
  unfolding on_capture_conflict
  on_capture_conflict-Keeps (unique_violation column) =
      λ s. paid_or-Keeps (unique_violation column) (find_by_id payment.id s) s
  on_capture_conflict-Keeps (app_error code status) = λ s v. v
  on_capture_conflict-Keeps row_missing = λ s v. v
  on_capture_conflict-Keeps other_error = λ s v. v

  module _ (fair : Keeps o.pause) where
    capture_once-Keeps : (key : LedgerKey) → Keeps (capture_once o c input payment key)
    unfolding capture_once
    capture_once-Keeps key s =
        let latest = find_latest_attempt payment.id s in
        let body = capture_payment c input payment latest key in
        >>-Keeps o.pause (catching (with_transaction body) (on_capture_conflict payment.id)) fair
          (catching-Keeps (with_transaction body) (on_capture_conflict payment.id)
            (with_transaction-Keeps body (capture_payment-Keeps latest key))
            on_capture_conflict-Keeps)
          s

    after_ledger_check-Keeps :
        (key : LedgerKey) (entry : Option LedgerEntry)
        → Keeps (after_ledger_check o c input payment key entry)
    after_ledger_check-Keeps key none = capture_once-Keeps key
    after_ledger_check-Keeps key (some entry) =
        λ s. paid_or-Keeps (app_error internal_error 500) (find_by_id input.payment_id s) s

    capture_found-Keeps : Keeps (capture_found o c input payment)
    capture_found-Keeps s v =
        elim (Bool-cases (same_payment_status payment.status PaymentStatus.paid)) [
          | inl paid ↦ rw paid v
          | inr unpaid ↦
              rw unpaid
                (elim (Bool-cases (can_transition_payment payment.status PaymentStatus.paid)) [
                  | inr blocked ↦ rw blocked v
                  | inl open_ ↦
                      let key = get_or input.idempotency_key (LedgerKey.payment_paid payment.id) in
                      rw open_
                        (after_ledger_check-Keeps key (find_ledger_by_idempotency_key key s) s v)
                ])
        ]

-- `markPaymentPaid` keeps the payments covered on every branch, whatever the others commit between
-- its reads and its transaction, so long as they keep the payments covered.
pub mark_payment_paid-Keeps :
    (o : Outside)
    → Keeps o.pause
    → (c : Draws) (input : Capture) (s : Store) → IsValid s
    → IsValid (mark_payment_paid o c input s).1
unfolding mark_payment_paid
mark_payment_paid-Keeps o fair c input =
    required-Keeps (find_by_id input.payment_id) (app_error payment_not_found 404)
      (capture_found o c input) (λ payment. capture_found-Keeps o c input payment fair)
