-- ===== src/Delivery/Trail/Own.antt =====
-- A transition from the status that the caller has read, which the service itself checks:
-- src/modules/delivery/delivery-lifecycle.service.ts.
use doot_backend.Base.{
  ◌≡◌, inl, inr, Bool, true, false, not, ◌&&◌, ◌||◌, Option, none, [], ◌∷◌, arith, Bool-cases,
}
use doot_backend.Delivery.{
  DeliveryStatus, same_status, can_transition_delivery, is_stale_operational_transition,
  DeliveryRow,
}
use doot_backend.Delivery.Lifecycle.{Transition, transition}
use doot_backend.Delivery.Trail.{may_move, needs_otp, is_otp_source}
use doot_backend.Delivery.Trail.Rules.{Advances, if-Advances, answer-Advances, throw-Advances}
use doot_backend.Delivery.Trail.Moves.{AllMayMove, transition-Advances}
use doot_backend.Payment.Store.{app_error, delivery_invalid_transition, answer, throw}

allowed-may_move :
    (from to : DeliveryStatus) → can_transition_delivery from to ≡ true → may_move from to ≡ true
unfolding may_move
allowed-may_move from to h = ground (arith, h)

refused-differs :
    (from to : DeliveryStatus)
    → can_transition_delivery from to ≡ false
    → same_status from to ≡ false
unfolding can_transition_delivery
refused-differs from to h = ground arith

-- The service moves a delivery along the diagram, or throws, or does nothing.
pub transition_own-Advances :
    (guarded : Bool) (current : DeliveryStatus) (input : Transition)
    → input.expected_from_statuses ≡ current ∷ []
    → (is_otp_source input.source || not (needs_otp input.to_status)) ≡ true
    → Advances (transition guarded current input)
unfolding transition
transition_own-Advances guarded current input own by =
    elim (Bool-cases (can_transition_delivery current input.to_status)) [
      | inl allowed ↦
          let moves : AllMayMove input.expected_from_statuses input.to_status =
            rw own ((allowed-may_move current input.to_status allowed, tt)) in
          transition-Advances guarded current input (record { all_may_move = moves; by_otp = by })
      | inr blocked ↦
          rw (blocked, refused-differs current input.to_status blocked)
            (if-Advances (guarded && is_stale_operational_transition current input.to_status)
              (answer none) (throw (app_error delivery_invalid_transition 409))
              (answer-Advances {A = Option DeliveryRow} none)
              (throw-Advances (Option DeliveryRow) (app_error delivery_invalid_transition 409)))
    ]
