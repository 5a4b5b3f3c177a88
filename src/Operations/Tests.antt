-- ===== src/Operations/Tests.antt =====
-- Runs of the services that move deliveries, and instances of what is shown of them.
use doot_backend.Base.{◌≡◌, refl, inl, true, false, none, some, [], ◌∷◌}
use text.Mathlib.Text.{◌==◌ as str_eq}
use doot_backend.Delivery.{
  DeliveryStatus, created, option_ready, picked_up, delivered, load_authorized_delivery, UserRole,
  DeliveryRow,
}
use doot_backend.Delivery.Tables.{Contact, provider_poll, plus, no_deliveries}
use doot_backend.Delivery.Lifecycle.{
  NewDelivery, create_delivery, find_delivery_row, move_row, record_event, move_found,
  run_transition, load_delivery,
}
use doot_backend.Delivery.Trail.{Travels, replay, at, Follows-refl}
use doot_backend.Tracking.{
  TrackingOutside, TrackingInput, find_by_provider_event, create_point,
  maybe_transition_from_tracking, normalize_provider_tracking_status, ingest_tracking_result,
  point_row,
}
use doot_backend.Tracking.Rows.{validate_coordinates, all_placed}
use doot_backend.Orchestration.{
  OrchestrationOutside, get_next_attempt_number, create_request, complete_request,
  begin_orchestration, finalize_orchestration, run_orchestration, start_attempt, orchestrate,
}
use doot_backend.Operations.{
  Request, create, poll_tracking, orchestrate_delivery, serve, Served, start, next,
}
use doot_backend.Operations.Log.{
  Served-Travels, Served-replay, Served-closed, Served-IsCarried, IsCarried,
}
use doot_backend.Operations.Events.{Brings, ingest_tracking_result-once, Served-all_placed}
use doot_backend.Payment.Cover.History.{empty_store}
use doot_backend.Payment.Store.{Store, ok, Db, answer}

abbrev idle : Db (Unit {0})
idle = answer tt

abbrev delivery_in : DeliveryStatus → DeliveryRow
delivery_in status = record { id = 1; customer_id = 7; reference = "DOOT-1"; status = status }

abbrev contact : Contact
contact = record { delivery_id = 1; phone_country_code = some "+91"; phone_number = some "98" }

abbrev new_delivery : NewDelivery
new_delivery = record { row = delivery_in created; pickup = contact; drop = contact }

abbrev store_with : DeliveryStatus → Store
store_with status = record empty_store {
  delivery_tables = record no_deliveries { deliveries = delivery_in status ∷ [] };
}

abbrev chooser : OrchestrationOutside
chooser = record { request_id = 50; evaluate = λ r. answer true; pause = idle }

abbrev choose : Request
choose = orchestrate_delivery chooser Follows-refl (λ r. Follows-refl) 1 7 UserRole.customer

-- Created and orchestrated.
abbrev chosen : Store
chosen = serve choose (serve (create new_delivery) empty_store)

abbrev choosing : Served empty_store chosen
choosing = next (next start (create new_delivery)) choose

chosen_status : find_delivery_row 1 chosen ≡ some (delivery_in option_ready)
unfolding find_delivery_row serve create_delivery orchestrate load_delivery load_authorized_delivery
    start_attempt get_next_attempt_number begin_orchestration run_transition move_found move_row
    record_event create_request run_orchestration finalize_orchestration complete_request
chosen_status = refl

Served-Travels_example :
    (d' : DeliveryRow) × (find_delivery_row 1 (serve choose (store_with created)) ≡ some d')
    × Travels created d'.status
unfolding find_delivery_row
Served-Travels_example =
    Served-Travels (store_with created) (serve choose (store_with created)) 1 (delivery_in created)
      (next start choose) refl

Served-replay_example : replay 1 chosen.delivery_tables.status_events ≡ at option_ready
Served-replay_example =
    Served-replay empty_store chosen 1 (delivery_in option_ready) refl choosing chosen_status

Served-all_placed_example : all_placed chosen.delivery_tables.tracking_points ≡ true
Served-all_placed_example = Served-all_placed empty_store chosen refl choosing

Served-closed_example :
    (d' : DeliveryRow) × (find_delivery_row 1 (serve choose (store_with delivered)) ≡ some d')
    × (d'.status ≡ delivered)
unfolding find_delivery_row
Served-closed_example =
    Served-closed (store_with delivered) (serve choose (store_with delivered)) 1
      (delivery_in delivered) (next start choose) refl (inl refl)

abbrev tracker : TrackingOutside
tracker = record { test_pattern = λ pattern raw. str_eq pattern raw; pause = idle }

abbrev cancel_event : TrackingInput
cancel_event = record {
  delivery_id = 1;
  delivery_status = picked_up;
  provider_id = 3;
  tracking = record {
    status = some "cancel";
    latitude = some (plus 129716000);
    longitude = some (plus 775946000);
    provider_event_id = some "e-1";
    pending = false;
    skip_forward = false;
  };
  source = provider_poll;
}

Served-IsCarried_example :
    (d' : DeliveryRow) × (find_delivery_row 1
        (serve (poll_tracking tracker Follows-refl cancel_event) (store_with picked_up))
      ≡ some d')
    × IsCarried d'.status
unfolding find_delivery_row
Served-IsCarried_example =
    Served-IsCarried (store_with picked_up)
      (serve (poll_tracking tracker Follows-refl cancel_event) (store_with picked_up)) 1
      (delivery_in picked_up) (next start (poll_tracking tracker Follows-refl cancel_event)) refl
      (inl refl)

cancel_event-Brings : Brings cancel_event 3 "e-1"
cancel_event-Brings = record { from_provider = refl; with_id = refl; not_empty = refl }

abbrev once_tracked : Store
once_tracked = (ingest_tracking_result tracker cancel_event (store_with picked_up)).1

ingest_tracking_result-once_example :
    ingest_tracking_result tracker cancel_event (serve choose once_tracked)
    ≡ (ok none, serve choose once_tracked)
unfolding ingest_tracking_result find_by_provider_event create_point validate_coordinates
    normalize_provider_tracking_status maybe_transition_from_tracking
ingest_tracking_result-once_example =
    ingest_tracking_result-once tracker tracker cancel_event cancel_event 3 "e-1"
      (store_with picked_up) once_tracked (serve choose once_tracked) (point_row cancel_event)
      Follows-refl cancel_event-Brings cancel_event-Brings refl (next start choose)
