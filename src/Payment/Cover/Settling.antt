-- ===== src/Payment/Cover/Settling.antt =====
-- Settling a refund changes its row and its payment's row together: the invariant of the rows under
-- the two changes.
use doot_backend.Base.{
  ℕ, ◌+◌, ◌≤◌, ◌≡◌, ◌≢◌, inl, inr, true, some, List, [], ◌∷◌, arith, ◌==◌, Bool-cases,
}
use doot_backend.Base.Table.{find, update, find-id, find-update}
use doot_backend.Payment.Number.{number_of, plus}
use doot_backend.Payment.Types.{RefundStatus, Payment, Refund}
use doot_backend.Payment.Transitions.{refund_in}
use doot_backend.Payment.Repository.Queries.{payment_id_of, refund_id_of}
use doot_backend.Payment.Repository.Writes.{patch_payment}
use doot_backend.Payment.Service.Settlement.{refunded_patch, refunded_status}
use doot_backend.Payment.Cover.{IsCovered, IsSound}
use doot_backend.Payment.Cover.Rows.{settled_sums}

-- The payment's new row, once the refund's amount is counted.
abbrev pub counted_row : Payment → ℕ → Payment
counted_row p amount =
    patch_payment
      (refunded_patch p.id
        (refunded_status (plus (number_of p.refunded_amount) (number_of amount)) p.amount)
        (p.refunded_amount + amount))
      p

module _ (rs : List Refund) (j : ℕ) (f : Refund → Refund) (r : Refund)
    (found : find refund_id_of j rs ≡ some r) (own : (f r).payment_id ≡ r.payment_id)
    (same_amount : (f r).amount ≡ r.amount) (done : (f r).status ≡ RefundStatus.success)
    (is_open : refund_in (RefundStatus.requested ∷ RefundStatus.pending ∷ []) r.status ≡ true) where
  -- The payment of the refund.
  counted_row-IsCovered :
      (p : Payment)
      → r.payment_id ≡ p.id
      → p.refunded_amount + r.amount ≤ p.amount
      → IsCovered rs p
      → IsCovered (update refund_id_of j f rs) (counted_row p r.amount)
  counted_row-IsCovered p e fits h =
      let sums = settled_sums rs j p.id f r found own same_amount done is_open in
      record {
        capped = omega (arith, sums.0, h.capped);
        counted = ground (arith, sums.1, h.counted);
        unpaid = λ u. ground arith;
        whole = λ u. ground arith;
        full = λ u. ground arith;
      }

  -- Any other payment.
  other-IsCovered :
      (q : Payment)
      → r.payment_id ≢ q.id
      → IsCovered rs q
      → IsCovered (update refund_id_of j f rs) q
  other-IsCovered q ne h =
      let sums = settled_sums rs j q.id f r found own same_amount done is_open in
      record {
        capped = omega (arith, sums.0, h.capped);
        counted = ground (arith, sums.1, h.counted);
        unpaid = λ u. omega (arith, sums.0, h.unpaid u);
        whole = h.whole;
        full = h.full;
      }

  pub settle-IsSound :
      (ps : List Payment) (k : ℕ) (p : Payment) (g : Payment → Payment)
      → find payment_id_of k ps ≡ some p
      → r.payment_id ≡ k
      → ((x : Payment) → (g x).id ≡ x.id)
      → g p ≡ counted_row p r.amount
      → p.refunded_amount + r.amount ≤ p.amount
      → IsSound ps rs
      → IsSound (update payment_id_of p.id g ps) (update refund_id_of j f rs)
  settle-IsSound ps k p g e own' keep row fits h l q looked =
      let pid = find-id payment_id_of k ps p e in
      let at = find-update payment_id_of l p.id g ps keep in
      elim (Bool-cases (l == p.id)) [
        | inl hit ↦
            let q_is : q ≡ counted_row p r.amount = ground (arith, at, e, pid, row, looked) in
            rw q_is (counted_row-IsCovered p (ground (arith, pid)) fits (h k p e))
        | inr miss ↦
            let old : find payment_id_of l ps ≡ some q = ground (arith, at) in
            let qid = find-id payment_id_of l ps q old in
            other-IsCovered q (λ same. ground (arith, pid, qid)) (h l q old)
      ]
