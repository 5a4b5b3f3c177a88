-- ===== src/Delivery/Lifecycle.antt =====
-- Moving a delivery to another status: `transitionStatus` of
-- src/modules/delivery/delivery.repository.ts and the service of
-- src/modules/delivery/delivery-lifecycle.service.ts.
use doot_backend.Base.{
  ℕ, Bool, not, ◌&&◌, Option, none, some, is_some, List, [], ◌∷◌, if◌then◌else◌,
}
use doot_backend.Base.Table.{update}
use doot_backend.Delivery.{
  DeliveryStatus, created, same_status, includes, is_terminal_delivery_status,
  can_transition_delivery, is_stale_operational_transition, UserRole, DeliveryRow, find_delivery,
  load_authorized_delivery,
}
use doot_backend.Delivery.Tables.{StatusEventSource, system, StatusEvent, Contact, DeliveryTables}
use doot_backend.Payment.Store.{
  Store, app_error, delivery_not_found, delivery_invalid_transition, unique_violation, primary_key,
  row_missing, ok, Db, answer, read, or_throw, with_transaction, ◌>>=◌, ◌>>◌, throw_if,
}

-- A write to the tables about deliveries.
abbrev pub write_tables : (DeliveryTables → DeliveryTables) → Db (Unit {0})
write_tables f s = (ok tt, record s { delivery_tables = f s.delivery_tables })

abbrev pub delivery_id_of : DeliveryRow → ℕ
delivery_id_of d = d.id

unfoldable pub find_delivery_row : ℕ → Store → Option DeliveryRow
find_delivery_row k s = find_delivery k s.delivery_tables.deliveries

-- `loadAuthorizedDelivery` on the stored rows
unfoldable pub load_delivery : ℕ → ℕ → UserRole → Db DeliveryRow
load_delivery delivery_id user_id role = do
  found ← read (λ s. load_authorized_delivery s.delivery_tables.deliveries delivery_id user_id role)
  or_throw found (app_error delivery_not_found 404)

-- The arguments of `transitionStatus` that are stored or decided on.
pub record Transition : Type 0 where
  pub delivery_id : ℕ
  pub expected_from_statuses : List DeliveryStatus
  pub to_status : DeliveryStatus
  pub source : StatusEventSource

abbrev pub in_statuses : List DeliveryStatus → Option DeliveryRow → Option DeliveryRow
in_statuses statuses none = none
in_statuses statuses (some d) = if includes statuses d.status then some d else none

abbrev pub moved_row : DeliveryStatus → DeliveryRow → DeliveryRow
moved_row to d = record d { status = to }

abbrev pub moved_event : Transition → DeliveryStatus → StatusEvent
moved_event input from = record {
  delivery_id = input.delivery_id;
  from_status = some from;
  to_status = input.to_status;
  source = input.source;
}

abbrev pub move_from : DeliveryStatus → DeliveryStatus → DeliveryRow → DeliveryRow
move_from from to d = if same_status d.status from then moved_row to d else d

-- `updateMany` on the row with the id, in the status that was read; the answer is whether a row was
-- updated.
unfoldable pub move_row : ℕ → DeliveryStatus → DeliveryStatus → Db Bool
unfolding find_delivery_row
move_row k from to = do
  updated ← read (λ s. is_some (in_statuses (from ∷ []) (find_delivery_row k s)))
  write_tables
      (λ t. record t { deliveries = update delivery_id_of k (move_from from to) t.deliveries })
  answer updated

unfoldable pub record_event : StatusEvent → Db (Unit {0})
record_event event = write_tables (λ t. record t { status_events = event ∷ t.status_events })

-- What `runTransition` does with the row that it found.
unfoldable pub move_found : Transition → Option DeliveryRow → Db (Option DeliveryRow)
unfolding find_delivery_row
move_found input none = answer none
move_found input (some d) = do
  updated ← move_row input.delivery_id d.status input.to_status
  if updated
      then (do
        record_event (moved_event input d.status)
        found ← read (find_delivery_row input.delivery_id)
        row ← or_throw found row_missing
        answer (some row))
      else answer none

-- `runTransition`, for a caller that has a transaction.
unfoldable pub run_transition : Transition → Db (Option DeliveryRow)
unfolding find_delivery_row
run_transition input = do
  current ←
      read (λ s. in_statuses input.expected_from_statuses (find_delivery_row input.delivery_id s))
  move_found input current

unfoldable pub transition_status : Transition → Db (Option DeliveryRow)
transition_status input = with_transaction (run_transition input)

-- `DeliveryLifecycleService.transition`: the current status is the one that the caller has read.
unfoldable pub transition : Bool → DeliveryStatus → Transition → Db (Option DeliveryRow)
transition allow_stale_guard current input =
    if allow_stale_guard && is_stale_operational_transition current input.to_status
    then answer none
    else (do
      throw_if
          (not (same_status current input.to_status)
            && not (can_transition_delivery current input.to_status))
          (app_error delivery_invalid_transition 409)
      if is_terminal_delivery_status current && not (same_status current input.to_status)
          then answer none
          else transition_status input)

-- `CreateDeliveryPersistInput`, by the columns that are modelled; the delivery's id is drawn.
pub record NewDelivery : Type 0 where
  pub row : DeliveryRow
  pub pickup : Contact
  pub drop : Contact

abbrev pub created_event : ℕ → StatusEvent
created_event k = record {
  delivery_id = k;
  from_status = none;
  to_status = created;
  source = system;
}

abbrev pub created_tables : NewDelivery → DeliveryTables → DeliveryTables
created_tables input t = record t {
  deliveries = moved_row created input.row ∷ t.deliveries;
  pickups = input.pickup ∷ t.pickups;
  drops = input.drop ∷ t.drops;
  status_events = created_event input.row.id ∷ t.status_events;
}

unfoldable pub create_delivery : NewDelivery → Db DeliveryRow
unfolding find_delivery_row
create_delivery input = do
  taken ← read (find_delivery_row input.row.id)
  throw_if (is_some taken) (unique_violation primary_key)
  write_tables (created_tables input)
  answer (moved_row created input.row)
