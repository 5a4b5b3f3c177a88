-- ===== src/Operations/Log.antt =====
-- The log of status events and the diagram, through all the services that move deliveries.
use doot_backend.Base.{ℕ, ◌≡◌, refl, ◌⊎◌, ◌∙◌, true, some, arith}
use doot_backend.Delivery.{
  DeliveryStatus, picked_up, in_transit, delivery_otp_pending, delivered, cancelled, DeliveryRow,
  can_transition_delivery,
}
use doot_backend.Delivery.Lifecycle.{find_delivery_row}
use doot_backend.Delivery.Tables.{no_deliveries}
use doot_backend.Delivery.Trail.{
  may_move, Travels, here, leg, replay, at, IsLogged, Follows, Follows-refl, Follows-trans,
}
use doot_backend.Delivery.Trail.Creation.{create_delivery-Advances}
use doot_backend.Otp.Steps.{
  generate_pickup_otp-Advances, verify_pickup_otp-Advances, generate_delivery_otp-Advances,
  verify_delivery_otp-Advances,
}
use doot_backend.Tracking.Steps.{ingest_from_poll-Advances, ingest_from_webhook-Advances}
use doot_backend.Driver.{move_assigned-Advances}
use doot_backend.Orchestration.Steps.{orchestrate-Advances}
use doot_backend.Booking.Steps.{confirm-Advances}
use doot_backend.Cancellation.Steps.{cancel-Advances}
use doot_backend.Operations.{
  Request, create, send_pickup_code, send_delivery_code, check_pickup_code, check_delivery_code,
  poll_tracking, tracking_webhook, assign_driver, orchestrate_delivery, confirm_booking,
  cancel_delivery, serve, Served, start, next,
}
use doot_backend.Payment.Store.{Store}

serve-Follows : (r : Request) (s : Store) → Follows s (serve r s)
unfolding serve
serve-Follows (create input) = create_delivery-Advances input
serve-Follows (send_pickup_code o pause input) = generate_pickup_otp-Advances o pause input
serve-Follows (send_delivery_code o pause input) = generate_delivery_otp-Advances o pause input
serve-Follows (check_pickup_code o pause input guess) =
    verify_pickup_otp-Advances o pause input guess
serve-Follows (check_delivery_code o pause input guess) =
    verify_delivery_otp-Advances o pause input guess
serve-Follows (poll_tracking o pause input) = ingest_from_poll-Advances o pause input
serve-Follows (tracking_webhook o pause k status provider event) =
    ingest_from_webhook-Advances o pause k status provider event
serve-Follows (assign_driver input) = move_assigned-Advances input
serve-Follows (orchestrate_delivery o pause evaluate k user role) =
    orchestrate-Advances o pause evaluate k user role
serve-Follows (confirm_booking o steady k user role) = confirm-Advances o steady k user role
serve-Follows (cancel_delivery o steady input) = cancel-Advances o steady input

pub Served-Follows : {s t : Store} → Served s t → Follows s t
Served-Follows {s} start = Follows-refl s
Served-Follows {s} (next {t} before r) =
    Follows-trans s t (serve r t) (Served-Follows before) (serve-Follows r t)

-- Whatever requests the services serve, a stored delivery stays stored, and its status goes on along
-- the transition table; the one move beyond the table is the new start of a failed delivery's
-- orchestration. What others commit during a request is taken to do the same.
pub Served-Travels :
    (s t : Store) (k : ℕ) (d : DeliveryRow)
    → Served s t
    → find_delivery_row k s ≡ some d
    → (d' : DeliveryRow) × (find_delivery_row k t ≡ some d') × Travels d.status d'.status
unfolding find_delivery_row
Served-Travels s t k d served = (Served-Follows served).moved k d

no_deliveries-IsLogged : IsLogged no_deliveries
no_deliveries-IsLogged = record { told = λ k d h. cc h; untold = λ k h. refl }

-- Playing back the log of status events of a stored delivery gives its status, in every store that
-- the services lead to from a database without deliveries, where what others commit during a request
-- is taken to follow the diagram and to be logged too.
pub Served-replay :
    (s t : Store) (k : ℕ) (d : DeliveryRow)
    → s.delivery_tables ≡ no_deliveries
    → Served s t
    → find_delivery_row k t ≡ some d
    → replay k t.delivery_tables.status_events ≡ at d.status
unfolding find_delivery_row
Served-replay s t k d empty served =
    ((Served-Follows served).logged (rw empty no_deliveries-IsLogged)).told k d

abbrev pub IsClosed : DeliveryStatus → Type 0
IsClosed s = (s ≡ delivered) ⊎ (s ≡ cancelled)

closed-may_move : (s t : DeliveryStatus) → IsClosed s → may_move s t ≡ true → t ≡ s
unfolding may_move can_transition_delivery
closed-may_move s t h e = ground arith

Travels-closed : {s t : DeliveryStatus} → Travels s t → IsClosed s → t ≡ s
Travels-closed here h = refl
Travels-closed (leg {s} {t} {u} e r) h =
    let same = closed-may_move s t h e in Travels-closed {s = t} r (rw same h) ∙ same

-- A delivery that is delivered or cancelled keeps that status, whatever requests the services serve,
-- where what others commit during a request is taken to follow the diagram too.
pub Served-closed :
    (s t : Store) (k : ℕ) (d : DeliveryRow)
    → Served s t
    → find_delivery_row k s ≡ some d
    → IsClosed d.status
    → (d' : DeliveryRow) × (find_delivery_row k t ≡ some d') × (d'.status ≡ d.status)
Served-closed s t k d served found closed =
    let (d', now, r) = Served-Travels s t k d served found in (d', now, Travels-closed r closed)

-- The parcel is with the driver, or handed over.
abbrev pub IsCarried : DeliveryStatus → Type 0
IsCarried s = (s ≡ picked_up) ⊎ (s ≡ in_transit) ⊎ (s ≡ delivery_otp_pending) ⊎ (s ≡ delivered)

IsCarried-may_move : (s t : DeliveryStatus) → IsCarried s → may_move s t ≡ true → IsCarried t
unfolding may_move can_transition_delivery
IsCarried-may_move s t h e = ground arith

Travels-IsCarried : {s t : DeliveryStatus} → Travels s t → IsCarried s → IsCarried t
Travels-IsCarried here h = h
Travels-IsCarried (leg {s} {t} {u} e r) h = Travels-IsCarried r (IsCarried-may_move s t h e)

-- Once its parcel is picked up, a delivery is picked up, in transit, waiting for the code at the door
-- or delivered, and never cancelled or failed again, whatever requests the services serve, where what
-- others commit during a request is taken to follow the diagram too.
pub Served-IsCarried :
    (s t : Store) (k : ℕ) (d : DeliveryRow)
    → Served s t
    → find_delivery_row k s ≡ some d
    → IsCarried d.status
    → (d' : DeliveryRow) × (find_delivery_row k t ≡ some d') × IsCarried d'.status
Served-IsCarried s t k d served found carried =
    let (d', now, r) = Served-Travels s t k d served found in (d', now, Travels-IsCarried r carried)
