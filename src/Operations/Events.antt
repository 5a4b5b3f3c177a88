-- ===== src/Operations/Events.antt =====
-- The points of the tracking table through all the services: src/modules/tracking/tracking.service.ts.
use mathlib.Core.Path.{subst}
use doot_backend.Base.{
  ap, ℕ, ◌≡◌, refl, true, false, Option, none, some, is_some, String, arith, if◌then◌else◌,
  Bool-cases, inl, inr,
}
use text.Mathlib.TextPositions.{eq_refl}
use text.Mathlib.Text.{◌==◌ as str_eq}
use doot_backend.Delivery.Tables.{TrackingPoint, no_deliveries}
use doot_backend.Delivery.Trail.Rules.{Advances, advances}
use doot_backend.Operations.{Served}
use doot_backend.Operations.Log.{Served-Follows}
use doot_backend.Tracking.{
  TrackingOutside, TrackingInput, find_by_provider_event, known_event, point_row, create_point,
  maybe_transition_from_tracking, normalize_provider_tracking_status, ingest_tracking_result,
}
use doot_backend.Tracking.Rows.{find_event, all_placed}
use doot_backend.Tracking.Steps.{maybe_transition-Advances}
use doot_backend.Payment.Store.{Store, ok, Db, answer, ◌>>=◌, ◌>>◌, >>=-inv}

-- The input brings an event with an id of its own.
pub record Brings (input : TrackingInput) (provider : ℕ) (event : String) : Type 0 where
  pub from_provider : input.provider_id ≡ provider
  pub with_id : input.tracking.provider_event_id ≡ some event
  pub not_empty : str_eq event "" ≡ false

-- A known event is left alone.
known-ignored :
    (o : TrackingOutside) (input : TrackingInput) (s : Store)
    → known_event input s ≡ true
    → ingest_tracking_result o input s ≡ (ok none, s)
unfolding ingest_tracking_result
known-ignored o input s known = elim (Bool-cases (input.tracking.pending)) [
  | inl pending ↦ rw pending refl
  | inr present ↦ rw (present, known) refl
]

-- A stored event is known wherever it comes again.
Brings-known :
    (input : TrackingInput) (provider : ℕ) (event : String) (s : Store)
    → Brings input provider event
    → is_some (find_event provider event s.delivery_tables.tracking_points) ≡ true
    → known_event input s ≡ true
unfolding find_by_provider_event
Brings-known input provider event s v h = rw v.with_id (rw (v.not_empty, v.from_provider) h)

stored-find :
    (input : TrackingInput) (provider : ℕ) (event : String) (s : Store)
    → Brings input provider event
    → is_some (
        find_event provider event
          (create_point (point_row input) s).1.delivery_tables.tracking_points)
      ≡ true
unfolding create_point
stored-find input provider event s v =
    let own : str_eq event event ≡ true = eq_refl event in
    ground (arith, v.with_id, v.from_provider, own)

-- What follows the insert of the point.
abbrev after_point : TrackingOutside → TrackingInput → TrackingPoint → Db (Option TrackingPoint)
after_point o input point = do
  o.pause
  if input.tracking.skip_forward
      then answer tt
      else maybe_transition_from_tracking input
          (normalize_provider_tracking_status o input.tracking.status)
  answer (some point)

after_point-Advances :
    (o : TrackingOutside)
    → Advances (o.pause)
    → (input : TrackingInput) (point : TrackingPoint) → Advances (after_point o input point)
after_point-Advances o pause input point =
    search (advances, pause, maybe_transition-Advances) depth 8

abbrev take_event : TrackingOutside → TrackingInput → Db (Option TrackingPoint)
take_event o input = do o.pause; point ← create_point (point_row input); after_point o input point

take_event-known :
    (o : TrackingOutside) (input : TrackingInput) (provider : ℕ) (event : String) (s t : Store)
    (p : Option TrackingPoint)
    → Advances (o.pause)
    → Brings input provider event
    → take_event o input s ≡ (ok p, t)
    → is_some (find_event provider event t.delivery_tables.tracking_points) ≡ true
unfolding create_point
take_event-known o input provider event s t p pause v h =
    let row = point_row input in
    let rest : Db (Option TrackingPoint) = create_point row >>= after_point o input in
    let (_, u, paused, stored) = >>=-inv o.pause (λ _. rest) s t p h in
    let follows = after_point-Advances o pause input row (create_point row u).1 in
    subst (λ x. is_some (find_event provider event x.delivery_tables.tracking_points) ≡ true)
      (ap (λ x. x.1) stored)
      (follows.remembered provider event (stored-find input provider event u v))

-- An event that was taken is in the table.
ingest-known :
    (o : TrackingOutside) (input : TrackingInput) (provider : ℕ) (event : String) (s t : Store)
    (p : TrackingPoint)
    → Advances (o.pause)
    → Brings input provider event
    → ingest_tracking_result o input s ≡ (ok (some p), t)
    → is_some (find_event provider event t.delivery_tables.tracking_points) ≡ true
unfolding ingest_tracking_result
ingest-known o input provider event s t p pause v h = elim (Bool-cases (input.tracking.pending)) [
  | inl pending ↦ cc (pending, h)
  | inr present ↦ elim (Bool-cases (known_event input s)) [
    | inl known ↦ cc (present, known, h)
    | inr new ↦ take_event-known o input provider event s t (some p) pause v (cc (present, new, h))
  ]
]

-- A provider's event with an id is taken once: after it has been stored as a point, a request that
-- brings it again stores nothing and changes nothing, whatever requests the services served between.
-- What others commit during the first request is taken to follow the diagram.
pub ingest_tracking_result-once :
    (o o' : TrackingOutside) (input input' : TrackingInput) (provider : ℕ) (event : String)
    (s t u : Store) (p : TrackingPoint)
    → Advances (o.pause)
    → Brings input provider event
    → Brings input' provider event
    → ingest_tracking_result o input s ≡ (ok (some p), t)
    → Served t u
    → ingest_tracking_result o' input' u ≡ (ok none, u)
ingest_tracking_result-once o o' input input' provider event s t u p pause v v' taken served =
    let stored = ingest-known o input provider event s t p pause v taken in
    known-ignored o' input' u (
      Brings-known input' provider event u v'
        ((Served-Follows served).remembered provider event stored))

-- Every tracking point in the table has a latitude within 90 and a longitude within 180 degrees, or
-- neither of the two, in every store that the services lead to from a database without deliveries,
-- where what others commit during a request is taken to keep this.
pub Served-all_placed :
    (s t : Store)
    → s.delivery_tables ≡ no_deliveries
    → Served s t
    → all_placed t.delivery_tables.tracking_points ≡ true
Served-all_placed s t empty served = (Served-Follows served).placed (rw empty refl)
