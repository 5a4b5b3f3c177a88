-- ===== src/Delivery/Tests.antt =====
-- Instances of the theorems on the delivery diagram.
use doot_backend.Base.{◌<◌, ◌≡◌, refl, ◌≢◌, ◌⊎◌, ◌↔◌, true}
use doot_backend.Delivery.{
  created, orchestrating, option_ready, booked, picked_up, delivered, cancelled, status_rank,
  includes, can_transition_delivery, cancellable_delivery_statuses,
}
use doot_backend.Delivery.Diagram.{
  Reaches, here, move, rank-Reaches, Reaches-delivered, cancellable_iff,
}

to_option : Reaches created option_ready
unfolding can_transition_delivery
to_option = move {t = orchestrating} refl (move refl here)

rank-Reaches_example : (created ≡ option_ready) ⊎ (status_rank created < status_rank option_ready)
rank-Reaches_example = rank-Reaches to_option

Reaches-delivered_example : Reaches booked delivered
Reaches-delivered_example = Reaches-delivered booked ((λ e. cc), (λ e. cc), (λ e. cc))

cancellable_iff_example :
    (includes cancellable_delivery_statuses picked_up ≡ true)
    ↔ ((picked_up ≢ cancelled) × (can_transition_delivery picked_up cancelled ≡ true))
cancellable_iff_example = cancellable_iff picked_up
