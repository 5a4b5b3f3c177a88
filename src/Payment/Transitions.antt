-- ===== src/Payment/Transitions.antt =====
-- src/modules/payment/payment.transitions.ts.
use doot_backend.Base.{ℕ, List, [], ◌∷◌, Bool, true, false, ◌==◌, if◌then◌else◌, any}
use doot_backend.Payment.Types.{PaymentStatus, RefundStatus}

-- Statuses are compared as texts; a number stands for each.
abbrev pub payment_rank : PaymentStatus → ℕ
payment_rank PaymentStatus.created = 0
payment_rank PaymentStatus.pending = 1
payment_rank PaymentStatus.paid = 2
payment_rank PaymentStatus.failed = 3
payment_rank PaymentStatus.expired = 4
payment_rank PaymentStatus.partially_refunded = 5
payment_rank PaymentStatus.refunded = 6

abbrev pub same_payment_status : PaymentStatus → PaymentStatus → Bool
same_payment_status a b = payment_rank a == payment_rank b

abbrev pub payment_in : List PaymentStatus → PaymentStatus → Bool
payment_in list s = any (λ t. same_payment_status t s) list

abbrev pub refund_rank : RefundStatus → ℕ
refund_rank RefundStatus.requested = 0
refund_rank RefundStatus.pending = 1
refund_rank RefundStatus.success = 2
refund_rank RefundStatus.failed = 3
refund_rank RefundStatus.cancelled = 4

abbrev pub same_refund_status : RefundStatus → RefundStatus → Bool
same_refund_status a b = refund_rank a == refund_rank b

abbrev pub refund_in : List RefundStatus → RefundStatus → Bool
refund_in list s = any (λ t. same_refund_status t s) list

abbrev terminal_payment_statuses : List PaymentStatus
terminal_payment_statuses =
    PaymentStatus.failed ∷ PaymentStatus.expired ∷ PaymentStatus.refunded ∷ []

-- `PAYMENT_TRANSITIONS`
abbrev payment_transitions : PaymentStatus → List PaymentStatus
payment_transitions PaymentStatus.created =
    PaymentStatus.pending ∷ PaymentStatus.failed ∷ PaymentStatus.expired ∷ PaymentStatus.paid ∷ []
payment_transitions PaymentStatus.pending =
    PaymentStatus.paid ∷ PaymentStatus.failed ∷ PaymentStatus.expired ∷ []
payment_transitions PaymentStatus.paid =
    PaymentStatus.partially_refunded ∷ PaymentStatus.refunded ∷ []
payment_transitions PaymentStatus.partially_refunded =
    PaymentStatus.partially_refunded ∷ PaymentStatus.refunded ∷ []
payment_transitions _ = []

abbrev terminal_refund_statuses : List RefundStatus
terminal_refund_statuses = RefundStatus.success ∷ RefundStatus.failed ∷ RefundStatus.cancelled ∷ []

-- `REFUND_TRANSITIONS`
abbrev refund_transitions : RefundStatus → List RefundStatus
refund_transitions RefundStatus.requested =
    RefundStatus.pending ∷ RefundStatus.success ∷ RefundStatus.failed ∷ RefundStatus.cancelled ∷ []
refund_transitions RefundStatus.pending = RefundStatus.success ∷ RefundStatus.failed ∷ []
refund_transitions _ = []

unfoldable pub is_terminal_payment_status : PaymentStatus → Bool
is_terminal_payment_status status = payment_in terminal_payment_statuses status

unfoldable pub can_transition_payment : PaymentStatus → PaymentStatus → Bool
unfolding is_terminal_payment_status
can_transition_payment from to =
    if same_payment_status from to
    then true
    else if is_terminal_payment_status from
    then false
    else payment_in (payment_transitions from) to

unfoldable pub is_terminal_refund_status : RefundStatus → Bool
is_terminal_refund_status status = refund_in terminal_refund_statuses status

unfoldable pub can_transition_refund : RefundStatus → RefundStatus → Bool
unfolding is_terminal_refund_status
can_transition_refund from to =
    if same_refund_status from to
    then true
    else if is_terminal_refund_status from
    then false
    else refund_in (refund_transitions from) to
