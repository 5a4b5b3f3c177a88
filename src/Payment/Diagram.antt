-- ===== src/Payment/Diagram.antt =====
-- The transition tables of payments and refunds as graphs:
-- src/modules/payment/payment.transitions.ts.
use doot_backend.Base.{ℕ, ◌∙◌, ◌<◌, ◌≡◌, refl, ◌≢◌, ◌⊎◌, inl, ◌↔◌, true, arith}
use doot_backend.Payment.Types.{PaymentStatus, RefundStatus}
use doot_backend.Payment.Transitions.{
  is_terminal_payment_status, can_transition_payment, is_terminal_refund_status,
  can_transition_refund,
}

-- How far a payment is: 2 is paid, 3 and 4 are refunded in part and in full.
abbrev pub stage : PaymentStatus → ℕ
stage PaymentStatus.created = 0
stage PaymentStatus.pending = 1
stage PaymentStatus.paid = 2
stage PaymentStatus.partially_refunded = 3
stage PaymentStatus.refunded = 4
stage PaymentStatus.failed = 5
stage PaymentStatus.expired = 5

-- A payment is moved by a list of allowed transitions.
pub data Moves : PaymentStatus → PaymentStatus → Type 0 where
  here : {s : PaymentStatus} → Moves s s
  move : {s t u : PaymentStatus} → can_transition_payment s t ≡ true → Moves t u → Moves s u

stage-can_transition :
    (s t : PaymentStatus) → can_transition_payment s t ≡ true → (s ≡ t) ⊎ (stage s < stage t)
unfolding can_transition_payment is_terminal_payment_status
stage-can_transition s t h = ground arith

-- Along allowed transitions a payment keeps its status or gets to a later stage.
pub stage-Moves : {s t : PaymentStatus} → Moves s t → (s ≡ t) ⊎ (stage s < stage t)
stage-Moves here = inl refl
stage-Moves (move {s} {t} {u} h r) = ground (arith, stage-can_transition s t h, stage-Moves r)

-- The money of a payment came in.
abbrev pub IsPaidFor : PaymentStatus → Type 0
IsPaidFor s =
    (s ≡ PaymentStatus.paid) ⊎ (s ≡ PaymentStatus.partially_refunded) ⊎ (s ≡ PaymentStatus.refunded)

IsPaidFor-can_transition :
    (s t : PaymentStatus) → IsPaidFor s → can_transition_payment s t ≡ true → IsPaidFor t
unfolding can_transition_payment is_terminal_payment_status
IsPaidFor-can_transition s t h e = ground arith

ended_stays :
    (s t : PaymentStatus)
    → can_transition_payment s t ≡ true
    → is_terminal_payment_status s ≡ true
    → t ≡ s
unfolding can_transition_payment is_terminal_payment_status
ended_stays s t e h = ground arith

-- A payment that was paid never ends as failed or expired.
pub Moves-IsPaidFor : {s t : PaymentStatus} → Moves s t → IsPaidFor s → IsPaidFor t
Moves-IsPaidFor here h = h
Moves-IsPaidFor (move {s} {t} {u} e r) h = Moves-IsPaidFor r (IsPaidFor-can_transition s t h e)

-- A payment that failed, expired or was refunded in full never changes its status again.
Moves-ended : {s t : PaymentStatus} → Moves s t → is_terminal_payment_status s ≡ true → t ≡ s
Moves-ended here h = refl
Moves-ended (move {s} {t} {u} e r) h =
    let same = ended_stays s t e h in Moves-ended r (rw same h) ∙ same

-- A refund changes its status by an allowed transition exactly when it is requested, to anything
-- else, or pending, to success or failure: success, failure and cancellation are final.
refund_transition_iff :
    (s t : RefundStatus)
    → s ≢ t
    → (can_transition_refund s t ≡ true) ↔ (
        (s ≡ RefundStatus.requested)
        ⊎ ((s ≡ RefundStatus.pending) × ((t ≡ RefundStatus.success) ⊎ (t ≡ RefundStatus.failed))))
unfolding can_transition_refund is_terminal_refund_status
refund_transition_iff s t d = ground arith
