-- ===== src/Payment/Tests/Diagrams.antt =====
-- Instances of the theorems on the transition tables.
use doot_backend.Base.{◌<◌, ◌≡◌, refl, ◌⊎◌, inl, inr}
use doot_backend.Payment.Types.{PaymentStatus}
use doot_backend.Payment.Transitions.{can_transition_payment, is_terminal_payment_status}
use doot_backend.Payment.Diagram.{Moves, here, move, stage, stage-Moves, IsPaidFor, Moves-IsPaidFor}

to_refunded : Moves PaymentStatus.pending PaymentStatus.refunded
unfolding can_transition_payment is_terminal_payment_status
to_refunded = move {t = PaymentStatus.paid} refl (move refl here)

partial_to_refunded : Moves PaymentStatus.partially_refunded PaymentStatus.refunded
unfolding can_transition_payment is_terminal_payment_status
partial_to_refunded = move refl here

stage-Moves_example :
    (PaymentStatus.pending ≡ PaymentStatus.refunded)
    ⊎ (stage PaymentStatus.pending < stage PaymentStatus.refunded)
stage-Moves_example = stage-Moves to_refunded

Moves-IsPaidFor_example : IsPaidFor PaymentStatus.refunded
Moves-IsPaidFor_example = Moves-IsPaidFor partial_to_refunded (inr (inl refl))
