-- ===== src/Tracking/Steps.antt =====
-- What tracking updates do to the deliveries and their log: src/modules/tracking/tracking.service.ts.
use doot_backend.Base.{ℕ, ◌≡◌, refl, arith, Bool, true, false, Option, none}
use doot_backend.Delivery.{DeliveryStatus, in_transit, can_transition_delivery}
use doot_backend.Delivery.Tables.{Degrees, provider_webhook, TrackingPoint}
use doot_backend.Delivery.Trail.{may_move, here}
use doot_backend.Delivery.Trail.Rules.{Advances, advances, answer-Advances, Option-Advances}
use doot_backend.Delivery.Trail.Moves.{IsProper, transition-Advances}
use doot_backend.Payment.Store.{answer}
use doot_backend.Tracking.Rows.{validate_coordinates}
use doot_backend.Tracking.{
  NormalizedTrackingStatus, TrackingOutside, TrackingInput, WebhookEvent, create_point,
  tracked_transition, move_tracked, maybe_transition_from_tracking, ingest_tracking_result,
  ingest_from_poll, point_row, if_valid, tracking_of_event, ingest_from_webhook,
}

placed_if :
    (latitude longitude : Option Degrees) (b : Bool)
    → validate_coordinates latitude longitude ≡ b
    → validate_coordinates (if_valid b latitude) (if_valid b longitude) ≡ true
unfolding validate_coordinates
placed_if latitude longitude true h = h
placed_if latitude longitude false h = refl

row-IsPlaced :
    (input : TrackingInput)
    → validate_coordinates (point_row input).latitude (point_row input).longitude ≡ true
row-IsPlaced input =
    let r = input.tracking in
    placed_if r.latitude r.longitude (validate_coordinates r.latitude r.longitude) refl

create_point-Advances : (input : TrackingInput) → Advances (create_point (point_row input))
unfolding create_point
create_point-Advances input s = record {
  moved = λ k d h. (d, h, here);
  logged = λ v. record { told = v.told; untold = v.untold };
  verified = λ h. h;
  remembered = λ provider event h. ground (arith, h);
  placed = λ h. ground (arith, h, row-IsPlaced input);
}

to_in_transit-IsProper : (input : TrackingInput) → IsProper (tracked_transition input in_transit)
unfolding may_move can_transition_delivery
to_in_transit-IsProper input = record { all_may_move = (refl, tt); by_otp = refl }

pub maybe_transition-Advances :
    (input : TrackingInput) (n : NormalizedTrackingStatus)
    → Advances (maybe_transition_from_tracking input n)
unfolding maybe_transition_from_tracking move_tracked
maybe_transition-Advances input NormalizedTrackingStatus.in_transit =
    search (advances, transition-Advances, to_in_transit-IsProper) depth 10
maybe_transition-Advances input NormalizedTrackingStatus.picked_up = search advances
maybe_transition-Advances input NormalizedTrackingStatus.booked = search advances
maybe_transition-Advances input NormalizedTrackingStatus.driver_assigned = search advances
maybe_transition-Advances input NormalizedTrackingStatus.pickup_started = search advances
maybe_transition-Advances input NormalizedTrackingStatus.near_destination = search advances
maybe_transition-Advances input NormalizedTrackingStatus.delivery_attempted = search advances
maybe_transition-Advances input NormalizedTrackingStatus.delivered = search advances
maybe_transition-Advances input NormalizedTrackingStatus.cancelled = search advances
maybe_transition-Advances input NormalizedTrackingStatus.failed = search advances
maybe_transition-Advances input NormalizedTrackingStatus.unknown = search advances

module _ (o : TrackingOutside) (pause : Advances (o.pause)) where
  pub ingest-Advances : (input : TrackingInput) → Advances (ingest_tracking_result o input)
  unfolding ingest_tracking_result
  ingest-Advances input =
      search (advances, pause, create_point-Advances, maybe_transition-Advances) depth 14

  pub ingest_from_poll-Advances : (input : TrackingInput) → Advances (ingest_from_poll o input)
  unfolding ingest_from_poll
  ingest_from_poll-Advances input = search ingest-Advances

  pub ingest_from_webhook-Advances :
      (k : ℕ) (status : DeliveryStatus) (provider : ℕ) (event : WebhookEvent)
      → Advances (ingest_from_webhook o k status provider event)
  unfolding ingest_from_webhook
  ingest_from_webhook-Advances k status provider event =
      Option-Advances
        (λ result. ingest_tracking_result o (record {
          delivery_id = k;
          delivery_status = status;
          provider_id = provider;
          tracking = result;
          source = provider_webhook;
        }))
        (answer none) (λ result. ingest-Advances _)
        (answer-Advances {A = Option TrackingPoint} none) (tracking_of_event event)
