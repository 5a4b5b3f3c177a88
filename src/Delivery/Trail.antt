-- ===== src/Delivery/Trail.antt =====
-- The status events of src/modules/delivery/delivery.repository.ts as a log that is played back, and
-- the life of a delivery that the services are to follow.
pub mod Rules
pub mod Moves
pub mod Own
pub mod Creation
use doot_backend.Base.{
  true, ℕ, ◌≡◌, ◌⊎◌, Bool, false, not, ◌&&◌, ◌||◌, Option, none, some, is_some, String, List, [],
  ◌∷◌, ◌==◌, if◌then◌else◌,
}
use doot_backend.Base.Table.{find}
use doot_backend.Delivery.{
  DeliveryStatus, created, orchestrating, picked_up, delivered, failed, same_status,
  can_transition_delivery, DeliveryRow, find_delivery,
}
use doot_backend.Delivery.Tables.{StatusEventSource, otp, StatusEvent, DeliveryTables}
use doot_backend.Tracking.Rows.{find_event, all_placed}
use doot_backend.Payment.Store.{Store}

-- A move of the diagram, or the new start that orchestration gives a failed delivery.
unfoldable pub may_move : DeliveryStatus → DeliveryStatus → Bool
may_move from to =
    can_transition_delivery from to || (same_status from failed && same_status to orchestrating)

-- The way of a delivery from one status to another.
pub data Travels : DeliveryStatus → DeliveryStatus → Type 0 where
  here : {s : DeliveryStatus} → Travels s s
  leg : {s t u : DeliveryStatus} → may_move s t ≡ true → Travels t u → Travels s u

pub Travels-trans : {s t u : DeliveryStatus} → Travels s t → Travels t u → Travels s u
Travels-trans here r = r
Travels-trans (leg h q) r = leg h (Travels-trans q r)

-- What the log says of a delivery.
pub data Replay : Type 0 where
  silent broken : Replay
  at : DeliveryStatus → Replay

-- An event continues the log before it.
unfoldable pub continue : Option DeliveryStatus → DeliveryStatus → Replay → Replay
continue none to silent = if same_status to created then at created else broken
continue (some from) to (at old) =
    if same_status from old && may_move from to then at to else broken
continue _ _ _ = broken

-- The events of a delivery, played back from the oldest, which stands last.
abbrev pub replay : ℕ → List StatusEvent → Replay
replay k [] = silent
replay k (e ∷ es) =
    let old = replay k es in
    if e.delivery_id == k then continue e.from_status e.to_status old else old

-- The log leads each delivery to its stored status, and tells of no delivery that is not stored.
pub record IsLogged (t : DeliveryTables) : Type 0 where
  pub told :
      (k : ℕ) (d : DeliveryRow)
      → find_delivery k t.deliveries ≡ some d
      → replay k t.status_events ≡ at d.status
  pub untold : (k : ℕ) → find_delivery k t.deliveries ≡ none → replay k t.status_events ≡ silent

-- `PICKED_UP` and `DELIVERED`
abbrev pub needs_otp : DeliveryStatus → Bool
needs_otp s = same_status s picked_up || same_status s delivered

abbrev pub is_otp_source : StatusEventSource → Bool
is_otp_source otp = true
is_otp_source _ = false

-- Whether every pickup and every handover in the log has the source OTP.
abbrev pub all_by_otp : List StatusEvent → Bool
all_by_otp [] = true
all_by_otp (e ∷ es) = (not (needs_otp e.to_status) || is_otp_source e.source) && all_by_otp es

-- How a later database stands to an earlier one: deliveries have moved along the diagram, the log
-- was kept, and so were the tracking events.
pub record Follows (s t : Store) : Type 0 where
  pub moved :
      (k : ℕ) (d : DeliveryRow)
      → find_delivery k s.delivery_tables.deliveries ≡ some d
      → (d' : DeliveryRow) × (find_delivery k t.delivery_tables.deliveries ≡ some d')
        × Travels d.status d'.status
  pub logged : IsLogged s.delivery_tables → IsLogged t.delivery_tables
  pub verified :
      all_by_otp s.delivery_tables.status_events ≡ true
      → all_by_otp t.delivery_tables.status_events ≡ true
  pub remembered :
      (provider : ℕ) (event : String)
      → is_some (find_event provider event s.delivery_tables.tracking_points) ≡ true
      → is_some (find_event provider event t.delivery_tables.tracking_points) ≡ true
  pub placed :
      all_placed s.delivery_tables.tracking_points ≡ true
      → all_placed t.delivery_tables.tracking_points ≡ true

pub Follows-refl : (s : Store) → Follows s s
Follows-refl s = record {
  moved = λ k d h. (d, h, here);
  logged = λ h. h;
  verified = λ h. h;
  remembered = λ provider event h. h;
  placed = λ h. h;
}

pub Follows-trans : (s t u : Store) → Follows s t → Follows t u → Follows s u
Follows-trans s t u f g = record {
  moved = λ k d h.
      let (d', h', r) = f.moved k d h in
      let (d'', h'', r') = g.moved k d' h' in (d'', h'', Travels-trans r r');
  logged = λ h. g.logged (f.logged h);
  verified = λ h. g.verified (f.verified h);
  remembered = λ provider event h. g.remembered provider event (f.remembered provider event h);
  placed = λ h. g.placed (f.placed h);
}
