-- ===== src/Orchestration.antt =====
-- Choosing a provider's option for a delivery: the requests of
-- src/modules/orchestration/orchestration.repository.ts and `orchestrate` of
-- src/modules/orchestration/orchestration.service.ts.
-- The evaluation of the providers is a parameter here: it tells whether an option was selected.
pub mod Steps
pub mod Fallback
pub mod Compatibility
pub mod Suitability
mod Tests
use doot_backend.Base.{
  ℕ, ◌+◌, Bool, true, false, not, ◌&&◌, Option, none, some, is_some, get_or, List, [], ◌∷◌, ◌==◌,
  if◌then◌else◌, any,
}
use doot_backend.Base.Table.{find, update, latest_by}
use doot_backend.Delivery.{
  DeliveryStatus, created, orchestrating, option_ready, booking, booked, driver_assigned,
  pickup_otp_pending, picked_up, in_transit, delivery_otp_pending, delivered, cancelled,
  same_status, includes, UserRole,
}
use doot_backend.Delivery.Tables.{
  orchestration, OrchestrationRequestStatus, running, completed, failed, OrchestrationRequest,
  DeliveryTables,
}
use doot_backend.Delivery.Lifecycle.{write_tables, load_delivery, Transition, run_transition}
use doot_backend.Payment.Store.{
  Store, Failure, app_error, delivery_not_ready_for_orchestration, orchestration_in_progress,
  orchestration_failed, orchestration_not_found, unique_violation, attempt_number, row_missing,
  Result, Db, answer, throw, read, or_throw, catching, with_transaction, ◌>>=◌, ◌>>◌, throw_if,
}

-- `ORCHESTRATION_BLOCKED_STATUSES`
abbrev orchestration_blocked_statuses : List DeliveryStatus
orchestration_blocked_statuses =
    booking ∷ booked ∷ driver_assigned ∷ pickup_otp_pending ∷ picked_up ∷ in_transit
    ∷ delivery_otp_pending ∷ delivered ∷ cancelled ∷ []

-- `ORCHESTRATION_RETRYABLE_STATUSES`
abbrev orchestration_retryable_statuses : List DeliveryStatus
orchestration_retryable_statuses = created ∷ DeliveryStatus.failed ∷ []

abbrev is_completed : OrchestrationRequestStatus → Bool
is_completed completed = true
is_completed _ = false

unfoldable pub find_latest_completed : ℕ → Store → Option OrchestrationRequest
find_latest_completed k s =
    latest_by (λ r. r.attempt_number) (λ r. r.delivery_id == k && is_completed r.status)
      s.delivery_tables.orchestration_requests

abbrev attempt_of : Option OrchestrationRequest → ℕ
attempt_of none = 0
attempt_of (some r) = r.attempt_number

unfoldable pub get_next_attempt_number : ℕ → Store → ℕ
get_next_attempt_number k s =
    attempt_of (
      latest_by (λ r. r.attempt_number) (λ r. r.delivery_id == k)
        s.delivery_tables.orchestration_requests)
    + 1

abbrev running_row : ℕ → ℕ → ℕ → OrchestrationRequest
running_row new_id k n = record {
  id = new_id;
  delivery_id = k;
  attempt_number = n;
  status = running;
}

-- `createRequest`: an attempt of a delivery stands once.
unfoldable pub create_request : ℕ → ℕ → ℕ → Db OrchestrationRequest
create_request new_id k n = do
  taken ← read (λ s.
      any (λ r. r.delivery_id == k && r.attempt_number == n)
        s.delivery_tables.orchestration_requests)
  throw_if taken (unique_violation attempt_number)
  write_tables
      (λ t. record t { orchestration_requests = running_row new_id k n ∷ t.orchestration_requests })
  answer (running_row new_id k n)

abbrev with_status : OrchestrationRequestStatus → OrchestrationRequest → OrchestrationRequest
with_status status r = record r { status = status }

unfoldable pub complete_request : ℕ → OrchestrationRequestStatus → Db (Unit {0})
complete_request k status = do
  found ← read (λ s. find (λ r. r.id) k s.delivery_tables.orchestration_requests)
  throw_if (not (is_some found)) row_missing
  write_tables (λ t. record t {
    orchestration_requests = update (λ r. r.id) k (with_status status) t.orchestration_requests;
  })

abbrev pub to_orchestrating : ℕ → Transition
to_orchestrating k = record {
  delivery_id = k;
  expected_from_statuses = created ∷ DeliveryStatus.failed ∷ [];
  to_status = orchestrating;
  source = orchestration;
}

abbrev pub orchestrated : ℕ → Bool → Transition
orchestrated k selected = record {
  delivery_id = k;
  expected_from_statuses = orchestrating ∷ [];
  to_status = if selected then option_ready else DeliveryStatus.failed;
  source = orchestration;
}

-- The transaction that starts an orchestration.
unfoldable pub begin_orchestration : ℕ → ℕ → ℕ → Db OrchestrationRequest
begin_orchestration new_id k n = with_transaction (do
  moved ← run_transition (to_orchestrating k)
  throw_if (not (is_some moved)) (app_error orchestration_in_progress 409)
  create_request new_id k n)

-- The transaction at the end of `runOrchestration`; the answer is the new status of the delivery.
unfoldable pub finalize_orchestration : ℕ → OrchestrationRequest → Bool → Db DeliveryStatus
finalize_orchestration k request selected = with_transaction (do
  complete_request request.id (if selected then completed else failed)
  moved ← run_transition (orchestrated k selected)
  throw_if (not (is_some moved)) (app_error orchestration_failed 500)
  answer (if selected then option_ready else DeliveryStatus.failed))

-- `failOrchestrationSafely`
unfoldable pub fail_orchestration_safely : OrchestrationRequest → ℕ → Db (Unit {0})
fail_orchestration_safely request k =
    catching
      (with_transaction (
        complete_request request.id failed >> (run_transition (orchestrated k false) >> answer tt)))
      (λ _. answer tt)

-- The id that is drawn, the evaluation of the providers, and what others commit between two steps.
pub record OrchestrationOutside : Type 0 where
  pub request_id : ℕ
  pub evaluate : OrchestrationRequest → Db Bool
  pub pause : Db (Unit {0})

pub record OrchestrationAnswer : Type 0 where
  pub delivery_status : DeliveryStatus
  pub request : ℕ

abbrev orchestration_answer : DeliveryStatus → OrchestrationRequest → OrchestrationAnswer
orchestration_answer status request = record { delivery_status = status; request = request.id }

unfoldable pub run_orchestration :
    OrchestrationOutside → ℕ → OrchestrationRequest → Db OrchestrationAnswer
run_orchestration o k request = do
  selected ← o.evaluate request
  o.pause
  status ← finalize_orchestration k request selected
  answer (orchestration_answer status request)

-- `orchestrate` from the start of an attempt.
unfoldable pub start_attempt : OrchestrationOutside → ℕ → Db OrchestrationAnswer
start_attempt o k = do
  n ← read (get_next_attempt_number k)
  o.pause
  request ← begin_orchestration o.request_id k n
  o.pause
  catching (run_orchestration o k request) (λ e. fail_orchestration_safely request k >> throw e)

-- `orchestrate`; a completed request was committed with its selected option.
unfoldable pub orchestrate : OrchestrationOutside → ℕ → ℕ → UserRole → Db OrchestrationAnswer
orchestrate o k user role = do
  d ← load_delivery k user role
  o.pause
  if same_status d.status option_ready
      then (do
        found ← read (find_latest_completed k)
        request ← or_throw found (app_error orchestration_not_found 404)
        answer (orchestration_answer d.status request))
      else (do
        throw_if (same_status d.status orchestrating) (app_error orchestration_in_progress 409)
        throw_if (includes orchestration_blocked_statuses d.status)
            (app_error delivery_not_ready_for_orchestration 422)
        throw_if (not (includes orchestration_retryable_statuses d.status))
            (app_error delivery_not_ready_for_orchestration 422)
        start_attempt o k)
