-- ===== src/Payment/Room.antt =====
-- The room for refunds on a payment.
use doot_backend.Base.{ℕ, ◌+◌, ◌≡◌, refl, true, false, some, [], ◌∷◌, arith, is_some}
use doot_backend.Base.Table.{find}
use doot_backend.Payment.Types.{PaymentStatus, Payment, Refund, truthy}
use doot_backend.Payment.Transitions.{payment_in}
use doot_backend.Payment.Store.{Store, answer, >>=-ok, app_error, refund_exceeds_paid, ok, err}
use doot_backend.Payment.Repository.Queries.{
  refund_id_of, find_by_id, find_refund_by_idempotency_key, sum_active_refund_amounts,
}
use doot_backend.Payment.Repository.RefundWrites.{refund_row, create_refund}
use doot_backend.Payment.Service.Outside.{Draws}
use doot_backend.Payment.Service.RefundSteps.{RefundRequest, refund_of, created, reserve_new_refund}
use doot_backend.Payment.Number.{is_refund_within_paid_amount}

-- A payment that takes refunds.
abbrev pub IsRefundable : Payment → Type 0
IsRefundable p =
    (payment_in (PaymentStatus.paid ∷ PaymentStatus.partially_refunded ∷ []) p.status ≡ true)
    × (truthy p.gateway_order_id ≡ true)

abbrev pub reserved_row : Draws → RefundRequest → Payment → Refund
reserved_row c input p = refund_row c.refund_id c.now (refund_of input p)

abbrev pub with_reserved : Draws → RefundRequest → Payment → Store → Store
with_reserved c input p s = record s { refunds = reserved_row c input p ∷ s.refunds }

-- The payments are as they were.
pub find-with_reserved :
    (k : ℕ) (c : Draws) (input : RefundRequest) (p : Payment) (s : Store)
    → find_by_id k (with_reserved c input p s) ≡ find_by_id k s
unfolding find_by_id
find-with_reserved k c input p s = refl

-- The sum of the active refunds grows by the amount.
pub sum-with_reserved :
    (c : Draws) (input : RefundRequest) (p : Payment) (s : Store)
    → (sum_active_refund_amounts p.id (with_reserved c input p s)).paise
      ≡ (sum_active_refund_amounts p.id s).paise + input.amount.paise
unfolding sum_active_refund_amounts
sum-with_reserved c input p s = ground arith

-- The insert itself, with a fresh id and a fresh key.
insert-ok :
    (c : Draws) (input : RefundRequest) (p : Payment) (s : Store)
    → is_some (find refund_id_of c.refund_id s.refunds) ≡ false
    → is_some (find_refund_by_idempotency_key input.idempotency_key s) ≡ false
    → create_refund c.refund_id c.now (refund_of input p) s
      ≡ (ok (reserved_row c input p), with_reserved c input p s)
unfolding create_refund
insert-ok c input p s fresh free = rw fresh (rw free refl)

-- A reservation for which there is room.
pub reserve-ok :
    (c : Draws) (input : RefundRequest) (p : Payment) (s : Store)
    → find_by_id input.payment_id s ≡ some p
    → IsRefundable p
    → is_some (find refund_id_of c.refund_id s.refunds) ≡ false
    → is_some (find_refund_by_idempotency_key input.idempotency_key s) ≡ false
    → is_refund_within_paid_amount p.amount (sum_active_refund_amounts p.id s) input.amount ≡ true
    → reserve_new_refund c input s
      ≡ (ok (created (reserved_row c input p) p), with_reserved c input p s)
unfolding reserve_new_refund
reserve-ok c input p s e (paid, order) fresh free room =
    let inserted = insert-ok c input p s fresh free in
    let insert = create_refund c.refund_id c.now (refund_of input p) in
    let rest =
      >>=-ok insert (λ r. answer (created r p)) s (with_reserved c input p s)
        (reserved_row c input p) inserted in
    rw e (rw paid (rw order (rw room rest)))

pub reserve-full :
    (c : Draws) (input : RefundRequest) (p : Payment) (s : Store)
    → find_by_id input.payment_id s ≡ some p
    → IsRefundable p
    → is_refund_within_paid_amount p.amount (sum_active_refund_amounts p.id s) input.amount ≡ false
    → reserve_new_refund c input s ≡ (err (app_error refund_exceeds_paid 422), s)
unfolding reserve_new_refund
reserve-full c input p s e (paid, order) full = rw e (rw paid (rw order (rw full refl)))
