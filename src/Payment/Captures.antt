-- ===== src/Payment/Captures.antt =====
-- `markPaymentPaid` and late events, after a capture.
use doot_backend.Base.{
  ℕ, ◌≡◌, refl, sym, ap, ◌∙◌, ◌⊎◌, inl, inr, true, Option, none, some, arith, Bool-cases,
  Option-cases, is_some,
}
use mathlib.Core.Path.{subst}
use doot_backend.Base.Table.{find, update, find-update}
use doot_backend.Payment.Types.{PaymentStatus, Payment, Attempt, LedgerKey}
use doot_backend.Payment.Transitions.{payment_in, same_payment_status}
use doot_backend.Payment.Store.{
  Store, Failure, Result, UniqueColumn, unique_violation, Db, ok, err, answer, ◌>>◌, >>=-inv,
  >>=-ok, answer-inv,
}
use doot_backend.Payment.Repository.Queries.{
  payment_id_of, attempt_id_of, entry_id_of, find_by_id, find_ledger_by_idempotency_key,
}
use doot_backend.Payment.Repository.Writes.{
  PaymentPatch, patch_payment, order_taken, update_payment_status, AttemptPatch, update_attempt,
}
use doot_backend.Payment.Repository.RefundWrites.{NewLedgerEntry, create_ledger_entry}
use doot_backend.Payment.Service.Outside.{Draws, Outside}
use doot_backend.Payment.Service.Status.{
  Capture, paid_patch, succeeded_attempt_patch, succeed_attempt, payment_entry, paid_or,
  invalid_transition, after_paid_update, capture_payment, mark_payment_paid,
}
use doot_backend.Payment.Webhook.{
  EventType, payment_success, payment_failed, payment_pending, refund_success, refund_failed, other,
  Event, capture_of, process_by, process,
}

abbrev SamePayments : {A : Type 0} → Db A → Type 0
SamePayments m = (s : Store) → (m s).1.payments ≡ s.payments

update_attempt-SamePayments : (d : AttemptPatch) → SamePayments (update_attempt d)
unfolding update_attempt
update_attempt-SamePayments d s = elim (Option-cases (find attempt_id_of d.attempt_id s.attempts)) [
  | inl absent ↦ rw (absent, update_attempt) refl
  | inr (a, e) ↦ rw (e, update_attempt) refl
]

create_ledger_entry-SamePayments :
    (k : ℕ) (input : NewLedgerEntry) → SamePayments (create_ledger_entry k input)
unfolding create_ledger_entry
create_ledger_entry-SamePayments k input s =
    elim (Bool-cases (is_some (find entry_id_of k s.ledger))) [
      | inl used ↦ rw used refl
      | inr fresh ↦
          rw fresh
            (elim (Bool-cases (is_some (find_ledger_by_idempotency_key input.idempotency_key s))) [
              | inl taken ↦ rw taken refl
              | inr free ↦ rw free refl
            ])
    ]

abbrev patched : PaymentPatch → Store → Store
patched d s = record s { payments = update payment_id_of d.payment_id (patch_payment d) s.payments }

-- What an update does.
update-cases :
    (d : PaymentPatch) (s : Store)
    → (update_payment_status d s ≡ (ok none, s))
      ⊎ (update_payment_status d s ≡ (err (unique_violation UniqueColumn.gateway_order_id), s))
      ⊎ ((p : Payment) × (find payment_id_of d.payment_id s.payments ≡ some p)
          × (update_payment_status d s ≡ (ok (some (patch_payment d p)), patched d s)))
unfolding update_payment_status find_by_id
update-cases d s = elim (Option-cases (find payment_id_of d.payment_id s.payments)) [
  | inl absent ↦ inl (rw (absent, update_payment_status, find_by_id) refl)
  | inr (p, found) ↦ elim (Bool-cases (payment_in d.from_statuses p.status)) [
    | inr miss ↦ inl (rw (found, update_payment_status, find_by_id) (rw miss refl))
    | inl hit ↦ elim (Bool-cases (order_taken d s.payments)) [
      | inl taken ↦
          inr (inl (rw (found, update_payment_status, find_by_id) (rw hit (rw taken refl))))
      | inr free ↦
          inr
            (inr (p, found, rw (found, update_payment_status, find_by_id) (rw hit (rw free refl))))
    ]
  ]
]

patched-find :
    (d : PaymentPatch) (s : Store) (p : Payment)
    → find payment_id_of d.payment_id s.payments ≡ some p
    → find_by_id d.payment_id (patched d s) ≡ some (patch_payment d p)
unfolding find_by_id
patched-find d s p e =
    let at =
      find-update payment_id_of d.payment_id d.payment_id (patch_payment d) s.payments
        (λ x. refl) in
    ground (arith, at, e)

-- An update that answers a row has stored that row.
updated-find :
    (d : PaymentPatch) (s t : Store) (q : Payment)
    → update_payment_status d s ≡ (ok (some q), t)
    → (find_by_id d.payment_id t ≡ some q) × (q.status ≡ d.to_status)
updated-find d s t q e = elim (update-cases d s) [
  | inl missed ↦ cc (e, missed)
  | inr (inl thrown) ↦ cc (e, thrown)
  | inr (inr (p, found, done)) ↦
      let (same_row, same_store) =
        answer-inv (some (patch_payment d p)) (some q) (patched d s) t (sym done ∙ e) in
      let is_q : patch_payment d p ≡ q = cc same_row in
      let at : find_by_id d.payment_id t ≡ some (patch_payment d p) =
        subst (λ u. find_by_id d.payment_id u ≡ some (patch_payment d p)) same_store
          (patched-find d s p found) in
      (at ∙ same_row, ap (λ x. x.status) (sym is_q))
]

paid_or-inv :
    (e : Failure) (o : Option Payment) (s t : Store) (q : Payment)
    → paid_or e o s ≡ (ok q, t)
    → (o ≡ some q) × (s ≡ t) × (same_payment_status q.status PaymentStatus.paid ≡ true)
paid_or-inv e none s t q h = cc h
paid_or-inv e (some p) s t q h =
    elim (Bool-cases (same_payment_status p.status PaymentStatus.paid)) [
      | inl paid ↦
          let run_ : paid_or e (some p) s ≡ (ok p, s) = rw paid refl in
          let (same_row, same_store) = answer-inv p q s t (sym run_ ∙ h) in
          (ap some same_row, same_store, rw (sym same_row) paid)
      | inr unpaid ↦
          let run_ : paid_or e (some p) s ≡ (err e, s) = rw unpaid refl in cc (sym run_ ∙ h)
    ]

kept_by :
    {A : Type 0}
    → (m : Db A) (s t : Store) (a : A) → SamePayments m
    → m s ≡ (ok a, t)
    → t.payments ≡ s.payments
kept_by m s t a h e = ap (λ x. x.1.payments) (sym e) ∙ h s

succeed_attempt-SamePayments :
    (c : Draws) (input : Capture) (latest : Option Attempt)
    → SamePayments (succeed_attempt c input latest)
succeed_attempt-SamePayments c input none s = refl
succeed_attempt-SamePayments c input (some a) s =
    let write = update_attempt (succeeded_attempt_patch c input a.id) in
    go (write s) ∙ update_attempt-SamePayments (succeeded_attempt_patch c input a.id) s
  where
    go :
        {A : Type 0} (x : Result A × Store)
        → (let (r, u) = x in
            elim r as (λ _. Result (Unit {0}) × Store) [
              | ok b ↦ answer tt u
              | err e ↦ (err e, u)
            ]).1.payments
          ≡ x.1.payments
    go (ok b, u) = refl
    go (err e, u) = refl

module _ (c : Draws) (input : Capture) (payment : Payment) where
  after_paid_update-inv :
      (latest : Option Attempt) (key : LedgerKey) (updated : Option Payment) (s t : Store)
      (q : Payment)
      → after_paid_update c input payment latest key updated s ≡ (ok q, t)
      → ((updated ≡ none)
          × (find_by_id payment.id t ≡ some q)
          × (same_payment_status q.status PaymentStatus.paid ≡ true))
        ⊎ ((updated ≡ some q) × (t.payments ≡ s.payments))
  after_paid_update-inv latest key none s t q e =
      let (found, same, paid) = paid_or-inv invalid_transition (find_by_id payment.id s) s t q e in
      inl (refl, subst (λ u. find_by_id payment.id u ≡ some q) same found, paid)
  after_paid_update-inv latest key (some p) s t q e =
      let enter = create_ledger_entry c.ledger_id (payment_entry payment key) in
      let (x, s1, first, e1) =
        >>=-inv (succeed_attempt c input latest) (λ _. enter >> answer p) s t q e in
      let (y, s2, second, e2) = >>=-inv enter (λ _. answer p) s1 t q e1 in
      let (same_row, same_store) = answer-inv p q s2 t e2 in
      inr (
        ap some same_row,
        ap (λ u. u.payments) (sym same_store)
            ∙ kept_by enter s1 s2 y
                (create_ledger_entry-SamePayments c.ledger_id (payment_entry payment key)) second
            ∙ kept_by (succeed_attempt c input latest) s s1 x
                (succeed_attempt-SamePayments c input latest) first,
      )

  -- A capture that answers leaves the payment paid, with the row that it answers.
  capture_payment-paid :
      (latest : Option Attempt) (key : LedgerKey) (s t : Store) (q : Payment)
      → capture_payment c input payment latest key s ≡ (ok q, t)
      → (find_by_id payment.id t ≡ some q)
        × (same_payment_status q.status PaymentStatus.paid ≡ true)
  unfolding capture_payment find_by_id
  capture_payment-paid latest key s t q e =
      let d = paid_patch c payment.id in
      let (updated, s1, first, e1) =
        >>=-inv (update_payment_status d) (after_paid_update c input payment latest key) s t q e in
      elim (after_paid_update-inv latest key updated s1 t q e1) [
        | inl (missed, found, paid) ↦ (found, paid)
        | inr (is_q, same) ↦
            let first' = subst (λ o. update_payment_status d s ≡ (ok o, s1)) is_q first in
            let (found, status) = updated-find d s s1 q first' in
            (ap (find payment_id_of payment.id) same ∙ found, rw status refl)
      ]

-- A payment that is paid is answered as it is, with nothing written.
paid-again :
    (o : Outside) (d : Draws) (again : Capture) (s : Store) (q : Payment)
    → find_by_id again.payment_id s ≡ some q
    → same_payment_status q.status PaymentStatus.paid ≡ true
    → mark_payment_paid o d again s ≡ (ok q, s)
unfolding mark_payment_paid
paid-again o d again s q found paid = rw found (rw paid refl)

-- When the transaction of `markPaymentPaid` answers, the payment is stored as paid with the row
-- that it answers, and a `markPaymentPaid` of it that comes next, under any key, answers the same
-- row and writes nothing: no second ledger entry, no second attempt.
pub mark_payment_paid-capture_payment :
    (o : Outside) (c d : Draws) (input again : Capture) (payment q : Payment)
    (latest : Option Attempt) (key : LedgerKey) (s t : Store)
    → capture_payment c input payment latest key s ≡ (ok q, t)
    → again.payment_id ≡ payment.id
    → (find_by_id payment.id t ≡ some q)
      × (same_payment_status q.status PaymentStatus.paid ≡ true)
      × (mark_payment_paid o d again t ≡ (ok q, t))
mark_payment_paid-capture_payment o c d input again payment q latest key s t e same =
    let (found, paid) = capture_payment-paid c input payment latest key s t q e in
    (found, paid, paid-again o d again t q (rw same found) paid)

-- An event about the payment itself.
abbrev pub IsPaymentEvent : Event → Type 0
IsPaymentEvent event =
    (event.event_type ≡ payment_success)
    ⊎ (event.event_type ≡ payment_failed)
    ⊎ (event.event_type ≡ payment_pending)

paid_event :
    (o : Outside) (d : Draws) (event : Event) (k : ℕ) (t : Store) (q : Payment)
    → find_by_id k t ≡ some q
    → same_payment_status q.status PaymentStatus.paid ≡ true
    → (type : EventType)
    → (type ≡ payment_success) ⊎ (type ≡ payment_failed) ⊎ (type ≡ payment_pending)
    → process_by o d k event type t ≡ (ok tt, t)
paid_event o d event k t q found paid payment_success h =
    >>=-ok (mark_payment_paid o d (capture_of k event)) (λ _. answer tt) t t q
      (paid-again o d (capture_of k event) t q found paid)
paid_event o d event k t q found paid payment_failed h = rw found (rw paid refl)
paid_event o d event k t q found paid payment_pending h = rw found (rw paid refl)
paid_event o d event k t q found paid refund_success h = ground (arith, h)
paid_event o d event k t q found paid refund_failed h = ground (arith, h)
paid_event o d event k t q found paid other h = ground (arith, h)

-- When the transaction of `markPaymentPaid` has answered, a PAYMENT_SUCCESS, PAYMENT_FAILED or
-- PAYMENT_PENDING event of the payment that comes next is processed without an error and writes
-- nothing.
pub process-capture_payment :
    (o : Outside) (c d : Draws) (input : Capture) (payment q : Payment) (latest : Option Attempt)
    (key : LedgerKey) (s t : Store) (event : Event)
    → capture_payment c input payment latest key s ≡ (ok q, t)
    → IsPaymentEvent event
    → process o d payment.id event t ≡ (ok tt, t)
unfolding process
process-capture_payment o c d input payment q latest key s t event e h =
    let (found, paid) = capture_payment-paid c input payment latest key s t q e in
    paid_event o d event payment.id t q found paid event.event_type h
