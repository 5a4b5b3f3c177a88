-- ===== src/Tracking.antt =====
-- What the tracking updates of providers do: src/modules/tracking/tracking.normalization.ts,
-- src/modules/tracking/tracking.repository.ts and src/modules/tracking/tracking.service.ts.
pub mod Rows
pub mod Steps
use doot_backend.Base.{
  ℕ, ◌*◌, Bool, true, false, not, ◌&&◌, ◌||◌, Option, none, some, is_some, or_else, get_or, String,
  List, [], ◌∷◌, leb, ◌==◌, if◌then◌else◌,
}
use text.Mathlib.Text.{◌==◌ as str_eq}
use doot_backend.Delivery.{
  DeliveryStatus, pickup_otp_pending, delivery_otp_pending, same_status, can_transition_delivery,
}
use doot_backend.Delivery.Tables.{
  tracking, TrackingPointSource, provider_poll, provider_webhook, system, Degrees, plus, minus,
  TrackingPoint, DeliveryTables,
}
use doot_backend.Delivery.Lifecycle.{write_tables, Transition, transition}
use doot_backend.Tracking.Rows.{validate_coordinates, find_event}
use doot_backend.Payment.Store.{Store, Db, answer, read, ◌>>=◌, ◌>>◌}

pub data NormalizedTrackingStatus : Type 0 where
  booked driver_assigned pickup_started picked_up in_transit near_destination delivery_attempted
        delivered cancelled failed unknown :
      NormalizedTrackingStatus

-- `KEYWORD_MAP`, each pattern by its text; all ignore case.
abbrev pub keyword_map : List (String × NormalizedTrackingStatus)
keyword_map =
    ("\\bundelivered\\b", NormalizedTrackingStatus.unknown)
    ∷ ("\\bdelivered\\b|\\bfinished\\b|\\bcompleted\\b", NormalizedTrackingStatus.delivered)
    ∷ ("cancel", NormalizedTrackingStatus.cancelled)
    ∷ ("pick.?up|picked", NormalizedTrackingStatus.picked_up)
    ∷ ("in.?transit|transit|on.?the.?way|out.?for.?delivery", NormalizedTrackingStatus.in_transit)
    ∷ ("driver.?assign|courier.?assign|assigned", NormalizedTrackingStatus.driver_assigned)
    ∷ ("near|arriv", NormalizedTrackingStatus.near_destination)
    ∷ ("fail|reject", NormalizedTrackingStatus.failed)
    ∷ []

-- What the service takes from outside: the test of a regular expression, and what others commit
-- between two steps.
pub record TrackingOutside : Type 0 where
  pub test_pattern : String → String → Bool
  pub pause : Db (Unit {0})

abbrev pub first_match :
    TrackingOutside → String → List (String × NormalizedTrackingStatus) → NormalizedTrackingStatus
first_match o raw [] = NormalizedTrackingStatus.unknown
first_match o raw (entry ∷ rest) =
    if o.test_pattern (entry.0) raw then entry.1 else first_match o raw rest

unfoldable pub normalize_provider_tracking_status :
    TrackingOutside → Option String → NormalizedTrackingStatus
normalize_provider_tracking_status o none = NormalizedTrackingStatus.unknown
normalize_provider_tracking_status o (some raw) =
    if str_eq raw "" then NormalizedTrackingStatus.unknown else first_match o raw keyword_map

-- `NormalizedTrackingResult`, by the fields that are stored or decided on; `pending` and
-- `skip_forward` are flags of its metadata.
pub record TrackingResult : Type 0 where
  pub status : Option String
  pub latitude : Option Degrees
  pub longitude : Option Degrees
  pub provider_event_id : Option String
  pub pending : Bool
  pub skip_forward : Bool

pub record TrackingInput : Type 0 where
  pub delivery_id : ℕ
  pub delivery_status : DeliveryStatus
  pub provider_id : ℕ
  pub tracking : TrackingResult
  pub source : TrackingPointSource

unfoldable pub find_by_provider_event : ℕ → String → Store → Option TrackingPoint
find_by_provider_event provider event s =
    find_event provider event s.delivery_tables.tracking_points

-- A missing or empty event id is not looked up.
abbrev pub known_event : TrackingInput → Store → Bool
known_event input s = elim (input.tracking.provider_event_id) [
  | none ↦ false
  | some event ↦ not (str_eq event "") && is_some (find_by_provider_event input.provider_id event s)
]

abbrev pub if_valid : Bool → Option Degrees → Option Degrees
if_valid b x = if b then x else none

abbrev pub point_row : TrackingInput → TrackingPoint
point_row input =
    let r = input.tracking in
    let valid = validate_coordinates r.latitude r.longitude in
    record {
      delivery_id = input.delivery_id;
      provider_id = input.provider_id;
      provider_event_id = r.provider_event_id;
      latitude = if_valid valid r.latitude;
      longitude = if_valid valid r.longitude;
      provider_status = r.status;
      source = input.source;
    }

unfoldable pub create_point : TrackingPoint → Db TrackingPoint
create_point p = do
  write_tables (λ t. record t { tracking_points = p ∷ t.tracking_points })
  answer p

-- `TRACKING_STATUS_TO_DELIVERY`
abbrev pub tracking_status_to_delivery : NormalizedTrackingStatus → Option DeliveryStatus
tracking_status_to_delivery NormalizedTrackingStatus.picked_up = some DeliveryStatus.picked_up
tracking_status_to_delivery NormalizedTrackingStatus.in_transit = some DeliveryStatus.in_transit
tracking_status_to_delivery _ = none

abbrev pub is_webhook : TrackingPointSource → Bool
is_webhook provider_webhook = true
is_webhook _ = false

-- `DELIVERED` and `PICKED_UP`, which tracking never decides.
abbrev pub is_left_to_otp : NormalizedTrackingStatus → Bool
is_left_to_otp NormalizedTrackingStatus.delivered = true
is_left_to_otp NormalizedTrackingStatus.picked_up = true
is_left_to_otp _ = false

-- `fromMap[target] ?? [currentStatus]`
abbrev pub tracked_from : DeliveryStatus → DeliveryStatus → List DeliveryStatus
tracked_from target current =
    if same_status target DeliveryStatus.in_transit
    then DeliveryStatus.picked_up ∷ []
    else current ∷ []

abbrev pub tracked_transition : TrackingInput → DeliveryStatus → Transition
tracked_transition input target = record {
  delivery_id = input.delivery_id;
  expected_from_statuses = tracked_from target input.delivery_status;
  to_status = target;
  source = tracking;
}

-- `maybeTransitionFromTracking` with a target
unfoldable pub move_tracked :
    TrackingInput → NormalizedTrackingStatus → DeliveryStatus → Db (Unit {0})
move_tracked input normalized target =
    if is_left_to_otp normalized
    then answer tt
    else if same_status input.delivery_status delivery_otp_pending
        || same_status input.delivery_status pickup_otp_pending
    then answer tt
    else if is_webhook input.source && not (can_transition_delivery input.delivery_status target)
    then answer tt
    else transition true input.delivery_status (tracked_transition input target) >> answer tt

unfoldable pub maybe_transition_from_tracking :
    TrackingInput → NormalizedTrackingStatus → Db (Unit {0})
maybe_transition_from_tracking input normalized = elim (tracking_status_to_delivery normalized) [
  | none ↦ answer tt
  | some target ↦ move_tracked input normalized target
]

unfoldable pub ingest_tracking_result : TrackingOutside → TrackingInput → Db (Option TrackingPoint)
ingest_tracking_result o input = if input.tracking.pending then answer none else (do
  known ← read (known_event input)
  if known then answer none else (do
    o.pause
    point ← create_point (point_row input)
    o.pause
    if input.tracking.skip_forward
        then answer tt
        else maybe_transition_from_tracking input
            (normalize_provider_tracking_status o input.tracking.status)
    answer (some point)))

-- `ingestFromPoll`; the input has the source of a poll.
unfoldable pub ingest_from_poll : TrackingOutside → TrackingInput → Db (Option TrackingPoint)
ingest_from_poll o input = ingest_tracking_result o (record input { source = provider_poll })

-- `NormalizedProviderWebhookEvent`: its own status, and what it tells of the tracking.
pub record WebhookTracking : Type 0 where
  pub status : Option String
  pub latitude : Option Degrees
  pub longitude : Option Degrees

pub record WebhookEvent : Type 0 where
  pub tracking : Option WebhookTracking
  pub status : Option String
  pub provider_event_id : Option String
  pub pending : Bool
  pub skip_forward : Bool

-- The event as a tracking result; an event with neither tracking nor status has none.
unfoldable pub tracking_of_event : WebhookEvent → Option TrackingResult
tracking_of_event e = elim (e.tracking) [
  | some w ↦ some (record {
    status = some (get_or (or_else w.status e.status) "UNKNOWN");
    latitude = w.latitude;
    longitude = w.longitude;
    provider_event_id = e.provider_event_id;
    pending = e.pending;
    skip_forward = e.skip_forward;
  })
  | none ↦ elim (e.status) [
    | none ↦ none
    | some status ↦
        if str_eq status ""
        then none
        else some (record {
          status = some status;
          latitude = none;
          longitude = none;
          provider_event_id = e.provider_event_id;
          pending = e.pending;
          skip_forward = e.skip_forward;
        })
  ]
]

unfoldable pub ingest_from_webhook :
    TrackingOutside → ℕ → DeliveryStatus → ℕ → WebhookEvent → Db (Option TrackingPoint)
ingest_from_webhook o k status provider event = elim (tracking_of_event event) [
  | none ↦ answer none
  | some result ↦ ingest_tracking_result o (record {
    delivery_id = k;
    delivery_status = status;
    provider_id = provider;
    tracking = result;
    source = provider_webhook;
  })
]
