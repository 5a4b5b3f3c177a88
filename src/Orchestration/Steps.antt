-- ===== src/Orchestration/Steps.antt =====
-- What an orchestration does to the deliveries and their log:
-- src/modules/orchestration/orchestration.service.ts.
use doot_backend.Base.{ℕ, refl, Bool, true, false}
use doot_backend.Delivery.{can_transition_delivery, UserRole}
use doot_backend.Delivery.Tables.{OrchestrationRequestStatus, OrchestrationRequest}
use doot_backend.Delivery.Lifecycle.{load_delivery}
use doot_backend.Delivery.Trail.{may_move}
use doot_backend.Delivery.Trail.Rules.{Advances, advances}
use doot_backend.Delivery.Trail.Moves.{IsProper, run_transition-Advances}
use doot_backend.Orchestration.{
  to_orchestrating, orchestrated, create_request, complete_request, begin_orchestration,
  finalize_orchestration, fail_orchestration_safely, OrchestrationOutside, run_orchestration,
  start_attempt, orchestrate,
}

to_orchestrating-IsProper : (k : ℕ) → IsProper (to_orchestrating k)
unfolding may_move can_transition_delivery
to_orchestrating-IsProper k = record { all_may_move = (refl, (refl, tt)); by_otp = refl }

orchestrated-IsProper : (k : ℕ) (selected : Bool) → IsProper (orchestrated k selected)
unfolding may_move can_transition_delivery
orchestrated-IsProper k true = record { all_may_move = (refl, tt); by_otp = refl }
orchestrated-IsProper k false = record { all_may_move = (refl, tt); by_otp = refl }

create_request-Advances : (new_id k n : ℕ) → Advances (create_request new_id k n)
unfolding create_request
create_request-Advances new_id k n = search advances depth 8

complete_request-Advances :
    (k : ℕ) (status : OrchestrationRequestStatus) → Advances (complete_request k status)
unfolding complete_request
complete_request-Advances k status = search advances depth 8

begin-Advances : (new_id k n : ℕ) → Advances (begin_orchestration new_id k n)
unfolding begin_orchestration
begin-Advances new_id k n =
    search (advances, create_request-Advances, run_transition-Advances, to_orchestrating-IsProper)
      depth 8

finalize-Advances :
    (k : ℕ) (request : OrchestrationRequest) (selected : Bool)
    → Advances (finalize_orchestration k request selected)
unfolding finalize_orchestration
finalize-Advances k request selected =
    search (advances, complete_request-Advances, run_transition-Advances, orchestrated-IsProper)
      depth 10

fail_safely-Advances :
    (request : OrchestrationRequest) (k : ℕ) → Advances (fail_orchestration_safely request k)
unfolding fail_orchestration_safely
fail_safely-Advances request k =
    search (advances, complete_request-Advances, run_transition-Advances, orchestrated-IsProper)
      depth 10

module _ (o : OrchestrationOutside) (pause : Advances (o.pause))
    (evaluate : (r : OrchestrationRequest) → Advances (o.evaluate r)) where
  run-Advances : (k : ℕ) (request : OrchestrationRequest) → Advances (run_orchestration o k request)
  unfolding run_orchestration
  run-Advances k request = search (advances, pause, evaluate, finalize-Advances) depth 10

  start_attempt-Advances : (k : ℕ) → Advances (start_attempt o k)
  unfolding start_attempt
  start_attempt-Advances k =
      search (advances, pause, begin-Advances, run-Advances, fail_safely-Advances) depth 12

  pub orchestrate-Advances : (k user : ℕ) (role : UserRole) → Advances (orchestrate o k user role)
  unfolding orchestrate load_delivery
  orchestrate-Advances k user role = search (advances, pause, start_attempt-Advances) depth 16
