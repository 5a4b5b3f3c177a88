-- ===== src/Payment/Cover/Rows.antt =====
-- The invariant under each change of the rows.
use doot_backend.Base.{
  ℕ, ◌+◌, ◌≤◌, ◌≡◌, inl, inr, true, some, List, [], ◌∷◌, arith, ◌==◌, if◌then◌else◌, Bool-cases,
}
use mathlib.Core.Path.{subst}
use doot_backend.Base.Table.{find, update, find-update, total-update}
use doot_backend.Payment.Types.{PaymentStatus, RefundStatus, Payment, Refund}
use doot_backend.Payment.Transitions.{payment_in, refund_in}
use doot_backend.Payment.Repository.Queries.{
  payment_id_of, refund_id_of, amount_in, active_statuses,
}
use doot_backend.Payment.Cover.{active, paid_back, IsCovered, HasNoOrphan}

-- A change of one refund's row that keeps its payment and its amount, lets what is active only
-- fall, and leaves what is paid back.
pub lower-IsCovered :
    (rs : List Refund) (k : ℕ) (f : Refund → Refund) (r : Refund) (p : Payment)
    → find refund_id_of k rs ≡ some r
    → amount_in active_statuses p.id (f r) ≤ amount_in active_statuses p.id r
    → amount_in (RefundStatus.success ∷ []) p.id (f r)
      ≡ amount_in (RefundStatus.success ∷ []) p.id r
    → IsCovered rs p
    → IsCovered (update refund_id_of k f rs) p
lower-IsCovered rs k f r p e low same h =
    let a = total-update refund_id_of (amount_in active_statuses p.id) k f rs r e in
    let b = total-update refund_id_of (amount_in (RefundStatus.success ∷ []) p.id) k f rs r e in
    record {
      capped = omega (arith, h.capped);
      counted = omega (arith, h.counted);
      unpaid = λ u. omega (arith, h.unpaid u);
      whole = h.whole;
      full = h.full;
    }

-- A new refund that fits into what is left of a paid payment.
pub reserve-IsCovered :
    (rs : List Refund) (r : Refund) (p q : Payment)
    → IsCovered rs q
    → r.status ≡ RefundStatus.requested
    → r.payment_id ≡ p.id
    → (q.id ≡ p.id → q ≡ p)
    → payment_in (PaymentStatus.paid ∷ PaymentStatus.partially_refunded ∷ []) p.status ≡ true
    → active p.id rs + r.amount ≤ p.amount
    → IsCovered (r ∷ rs) q
reserve-IsCovered rs r p q h e own same paid fits = ground arith

-- The weight of a row depends on its payment, its status and its amount alone.
settled-amounts :
    (k : ℕ) (r r' : Refund)
    → r'.payment_id ≡ r.payment_id
    → r'.amount ≡ r.amount
    → r'.status ≡ RefundStatus.success
    → refund_in (RefundStatus.requested ∷ RefundStatus.pending ∷ []) r.status ≡ true
    → (amount_in active_statuses k r' ≡ amount_in active_statuses k r)
      × (amount_in (RefundStatus.success ∷ []) k r ≡ 0)
      × (amount_in (RefundStatus.success ∷ []) k r' ≡ (if r.payment_id == k then r.amount else 0))
settled-amounts k r r' own amt done open_ = ground arith

-- A refund that turns from open to success moves its amount to what is paid back.
pub settled_sums :
    (rs : List Refund) (j k : ℕ) (f : Refund → Refund) (r : Refund)
    → find refund_id_of j rs ≡ some r
    → (f r).payment_id ≡ r.payment_id
    → (f r).amount ≡ r.amount
    → (f r).status ≡ RefundStatus.success
    → refund_in (RefundStatus.requested ∷ RefundStatus.pending ∷ []) r.status ≡ true
    → (active k (update refund_id_of j f rs) ≡ active k rs)
      × (paid_back k (update refund_id_of j f rs)
          ≡ paid_back k rs + (if r.payment_id == k then r.amount else 0))
settled_sums rs j k f r e own amt done open_ =
    let w = settled-amounts k r (f r) own amt done open_ in
    let a = total-update refund_id_of (amount_in active_statuses k) j f rs r e in
    let b = total-update refund_id_of (amount_in (RefundStatus.success ∷ []) k) j f rs r e in
    (omega (arith, w.0), omega (arith, w.1, w.2))

pub refund-HasNoOrphan :
    (ps : List Payment) (rs : List Refund) (j : ℕ) (f : Refund → Refund) (r : Refund)
    → find refund_id_of j rs ≡ some r
    → ((k : ℕ) → amount_in active_statuses k (f r) ≤ amount_in active_statuses k r)
    → HasNoOrphan ps rs
    → HasNoOrphan ps (update refund_id_of j f rs)
refund-HasNoOrphan ps rs j f r e low h k absent =
    omega
      (arith, total-update refund_id_of (amount_in active_statuses k) j f rs r e, low k, h k absent)

pub payment-HasNoOrphan :
    (ps : List Payment) (rs : List Refund) (j : ℕ) (g : Payment → Payment)
    → ((x : Payment) → (g x).id ≡ x.id)
    → HasNoOrphan ps rs
    → HasNoOrphan (update payment_id_of j g ps) rs
payment-HasNoOrphan ps rs j g keep h k absent =
    h k (ground (arith, find-update payment_id_of k j g ps keep))

pub reserve-HasNoOrphan :
    (ps : List Payment) (rs : List Refund) (r : Refund) (p : Payment)
    → find payment_id_of r.payment_id ps ≡ some p
    → HasNoOrphan ps rs
    → HasNoOrphan ps (r ∷ rs)
reserve-HasNoOrphan ps rs r p e h k absent = elim (Bool-cases (r.payment_id == k)) [
  | inl same ↦
      let at : r.payment_id ≡ k = ground arith in
      let here = subst (λ i. find payment_id_of i ps ≡ some p) at e in cc (here, absent)
  | inr other ↦ rw other (omega (arith, h k absent))
]
