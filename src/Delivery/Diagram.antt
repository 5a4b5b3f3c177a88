-- ===== src/Delivery/Diagram.antt =====
-- The transition table of deliveries as a graph, beside the ranks and the list of cancellable
-- statuses: src/modules/delivery/delivery.transitions.ts.
use doot_backend.Base.{◌<◌, ◌≡◌, refl, ◌≢◌, ◌⊎◌, inl, ◌↔◌, true, false, arith}
use doot_backend.Delivery.{
  DeliveryStatus, created, orchestrating, option_ready, booking, booked, driver_assigned,
  pickup_otp_pending, picked_up, in_transit, delivery_otp_pending, delivered, cancelled, failed,
  status_rank, includes, can_transition_delivery, is_stale_operational_transition,
  cancellable_delivery_statuses,
}

-- A delivery is advanced by a list of allowed moves.
pub data Reaches : DeliveryStatus → DeliveryStatus → Type 0 where
  here : {s : DeliveryStatus} → Reaches s s
  move : {s t u : DeliveryStatus} → can_transition_delivery s t ≡ true → Reaches t u → Reaches s u

-- An allowed move to another status raises the rank.
rank-can_transition :
    (s t : DeliveryStatus)
    → can_transition_delivery s t ≡ true
    → (s ≡ t) ⊎ (status_rank s < status_rank t)
unfolding can_transition_delivery
rank-can_transition s t h = ground arith

-- Along allowed moves the status stays or its rank rises, so no delivery comes back to a status
-- that it has left.
pub rank-Reaches : {s t : DeliveryStatus} → Reaches s t → (s ≡ t) ⊎ (status_rank s < status_rank t)
rank-Reaches here = inl refl
rank-Reaches (move {s} {t} {u} h r) = ground (arith, rank-can_transition s t h, rank-Reaches r)

abbrev pub IsTerminal : DeliveryStatus → Type 0
IsTerminal s = (s ≡ delivered) ⊎ (s ≡ cancelled) ⊎ (s ≡ failed)

abbrev pub IsLive : DeliveryStatus → Type 0
IsLive s = (s ≢ delivered) × (s ≢ cancelled) × (s ≢ failed)

last_leg : Reaches delivery_otp_pending delivered
unfolding can_transition_delivery
last_leg = move refl here

from_picked_up : Reaches picked_up delivered
unfolding can_transition_delivery
from_picked_up = move refl (move {s = in_transit} refl last_leg)

from_driver_assigned : Reaches driver_assigned delivered
unfolding can_transition_delivery
from_driver_assigned = move refl (move {s = pickup_otp_pending} refl from_picked_up)

from_option_ready : Reaches option_ready delivered
unfolding can_transition_delivery
from_option_ready =
    move refl (move {s = booking} refl (move {s = booked} refl from_driver_assigned))

-- Every status but the three terminal ones has a way on to `delivered`.
pub Reaches-delivered : (s : DeliveryStatus) → IsLive s → Reaches s delivered
unfolding can_transition_delivery
Reaches-delivered created h =
    move {t = orchestrating} refl (move {s = orchestrating} refl from_option_ready)
Reaches-delivered orchestrating h = move refl from_option_ready
Reaches-delivered option_ready h = from_option_ready
Reaches-delivered booking h = move {t = booked} refl (move refl from_driver_assigned)
Reaches-delivered booked h = move refl from_driver_assigned
Reaches-delivered driver_assigned h = from_driver_assigned
Reaches-delivered pickup_otp_pending h = move refl from_picked_up
Reaches-delivered picked_up h = from_picked_up
Reaches-delivered in_transit h = move refl last_leg
Reaches-delivered delivery_otp_pending h = last_leg
Reaches-delivered delivered h = absurd (h.0 refl)
Reaches-delivered cancelled h = absurd (h.1 refl)
Reaches-delivered failed h = absurd (h.2 refl)

-- The list of cancellable statuses is exactly the statuses, other than `cancelled` itself, from
-- which the table allows a move to `cancelled`.
pub cancellable_iff :
    (s : DeliveryStatus)
    → (includes cancellable_delivery_statuses s ≡ true)
      ↔ ((s ≢ cancelled) × (can_transition_delivery s cancelled ≡ true))
unfolding can_transition_delivery
cancellable_iff s = (λ h. ground arith, λ h. ground arith)

-- A provider update is stale when it would lower the rank of a live delivery or change a terminal
-- one.
stale_iff :
    (s t : DeliveryStatus)
    → (is_stale_operational_transition s t ≡ true)
      ↔ ((IsTerminal s × (t ≢ s)) ⊎ (IsLive s × (status_rank t < status_rank s)))
unfolding is_stale_operational_transition
stale_iff s t = (λ h. ground arith, λ h. ground arith)

-- No move that the table allows is stale.
stale-can_transition :
    (s t : DeliveryStatus)
    → can_transition_delivery s t ≡ true
    → is_stale_operational_transition s t ≡ false
unfolding can_transition_delivery is_stale_operational_transition
stale-can_transition s t h = ground arith
