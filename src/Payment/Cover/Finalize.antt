-- ===== src/Payment/Cover/Finalize.antt =====
-- The invariant through the payment's part of a settlement: the two row changes and the ledger entry
-- are one transaction.
use doot_backend.Base.{
  ℕ, ◌+◌, ◌≤◌, ◌≡◌, refl, sym, inl, inr, true, false, Option, none, some, List, [], ◌∷◌, arith,
  Bool-cases, String,
}
use mathlib.Core.Path.{subst}
use doot_backend.Base.Table.{find, update, find-id}
use doot_backend.Payment.Number.{number_of, plus}
use doot_backend.Payment.Types.{RefundStatus, Payment, Refund, LedgerKey}
use doot_backend.Payment.Transitions.{payment_in, refund_in, can_transition_payment}
use doot_backend.Payment.Store.{Store, ok}
use doot_backend.Payment.Repository.Queries.{payment_id_of, refund_id_of, find_refund_by_id}
use doot_backend.Payment.Repository.Writes.{patch_payment, update_payment_status}
use doot_backend.Payment.Repository.RefundWrites.{patch_refund, update_refund_status}
use doot_backend.Payment.Service.Outside.{Draws}
use doot_backend.Payment.Service.Settlement.{
  refunded_patch, refunded_status, refund_patch_of, record_settled, settle_payment,
}
use doot_backend.Payment.Cover.{HasNoOrphan, IsValid}
use doot_backend.Payment.Cover.Rules.{bind-IsValid}
use doot_backend.Payment.Cover.Rows.{lower-IsCovered, refund-HasNoOrphan, payment-HasNoOrphan}
use doot_backend.Payment.Cover.Settling.{settle-IsSound}
use doot_backend.Payment.Cover.Settlement.{
  paid_statuses, refunded-update, refunded_update_miss, record_settled-Keeps,
}

abbrev pub open_statuses : List RefundStatus
open_statuses = RefundStatus.requested ∷ RefundStatus.pending ∷ []

module _ (c : Draws) (g reference : Option String) where
  abbrev pub paid_row : ℕ → Refund → Refund
  paid_row k = patch_refund (refund_patch_of c k g reference)

  abbrev pub with_paid : ℕ → Store → Store
  with_paid k s = record s { refunds = update refund_id_of k (paid_row k) s.refunds }

  pub paid-update :
      (k : ℕ) (r : Refund) (s : Store)
      → find refund_id_of k s.refunds ≡ some r
      → refund_in open_statuses r.status ≡ true
      → update_refund_status (refund_patch_of c k g reference) s
        ≡ (ok (some (paid_row k r)), with_paid k s)
  unfolding update_refund_status find_refund_by_id
  paid-update k r s e hit = rw (e, update_refund_status, find_refund_by_id) (rw hit refl)

  pub paid_update_miss :
      (k : ℕ) (r : Refund) (s : Store)
      → find refund_id_of k s.refunds ≡ some r
      → refund_in open_statuses r.status ≡ false
      → update_refund_status (refund_patch_of c k g reference) s ≡ (ok none, s)
  unfolding update_refund_status find_refund_by_id
  paid_update_miss k r s e miss = rw (e, update_refund_status, find_refund_by_id) (rw miss refl)

  module _ (s : Store) (p : Payment) (r : Refund) (j k : ℕ)
      (e : find payment_id_of k s.payments ≡ some p) (f : find refund_id_of j s.refunds ≡ some r)
      (own : r.payment_id ≡ k) (is_open : refund_in open_statuses r.status ≡ true)
      (fits : p.refunded_amount + r.amount ≤ p.amount)
      (may : can_transition_payment p.status
          (refunded_status (plus (number_of p.refunded_amount) (number_of r.amount)) p.amount)
        ≡ true)
      (v : IsValid s) where
    -- A refund of nothing on a payment that is refunded already.
    nothing_left : payment_in paid_statuses p.status ≡ false → r.amount ≡ 0
    unfolding can_transition_payment
    nothing_left miss = ground (arith, (v.sound k p e).full)

    -- The paid row is as active as before.
    paid_owned : HasNoOrphan s.payments (with_paid j s).refunds
    paid_owned =
        refund-HasNoOrphan s.payments s.refunds j (paid_row j) r f (λ i. ground arith) v.owned

    update_settled-IsValid :
        IsValid
          (update_payment_status
            (refunded_patch p.id
              (refunded_status (plus (number_of p.refunded_amount) (number_of r.amount)) p.amount)
              (p.refunded_amount + r.amount))
            (with_paid j s)).1
    update_settled-IsValid =
        let n = p.refunded_amount + r.amount in
        let to =
          refunded_status (plus (number_of p.refunded_amount) (number_of r.amount)) p.amount in
        let own_p = find-id payment_id_of k s.payments p e in
        let e' = subst (λ i. find payment_id_of i s.payments ≡ some p) (sym own_p) e in
        elim (Bool-cases (payment_in paid_statuses p.status)) [
          | inl hit ↦ rw (refunded-update p.id to n p (with_paid j s) e' hit) (record {
            sound =
                settle-IsSound s.refunds j (paid_row j) r f refl refl refl is_open s.payments k p
                  (patch_payment (refunded_patch p.id to n)) e own (λ x. refl) refl fits v.sound;
            owned =
                payment-HasNoOrphan s.payments (with_paid j s).refunds p.id
                  (patch_payment (refunded_patch p.id to n)) (λ x. refl) paid_owned;
          })
          | inr miss ↦ rw (refunded_update_miss p.id to n p (with_paid j s) e' miss) (
              let zero_amount = nothing_left miss in
              record {
                sound = λ i q h.
                    lower-IsCovered s.refunds j (paid_row j) r q f (ground arith) (ground arith)
                      (v.sound i q h);
                owned = paid_owned;
              })
        ]

    pub settle_payment-IsValid :
        (key : LedgerKey)
        → IsValid
            (settle_payment c p
              (paid_row j r)
              (plus (number_of p.refunded_amount) (number_of r.amount))
              key
              (with_paid j s)).1
    unfolding settle_payment
    settle_payment-IsValid key =
        let n = plus (number_of p.refunded_amount) (number_of r.amount) in
        bind-IsValid
          (update_payment_status (refunded_patch p.id (refunded_status n p.amount) n.paise))
          (record_settled c p (paid_row j r) n key) (with_paid j s) update_settled-IsValid
          (record_settled-Keeps c p (paid_row j r) n key)
