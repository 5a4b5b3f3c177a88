-- ===== src/Cancellation/Covered.antt =====
-- The invariant of the payment tables through a whole cancellation:
-- src/modules/cancellation/cancellation.service.ts with the payment service behind it.
use doot_backend.Base.{ℕ, Bool, true, false, Option, none, some, String}
use doot_backend.Delivery.{DeliveryStatus, DeliveryRow}
use doot_backend.Delivery.Tables.{
  ProviderBooking, CancellationStatus, DeliveryCancellation, CancellationResponse, CancellationKey,
}
use doot_backend.Delivery.Lifecycle.{
  Transition, load_delivery, move_row, record_event, move_found, run_transition, transition_status,
  transition,
}
use doot_backend.Cancellation.Outcome.{Outcome}
use doot_backend.Cancellation.Refunding.{Summary}
use doot_backend.Cancellation.Remaining.{refund_prepaid_after_cancellation-Keeps}
use doot_backend.Cancellation.Records.{
  CancelRequest, CancelOutside, create_cancellation, finalize_cancellation, save_key,
  save_idempotency,
}
use doot_backend.Cancellation.Service.{
  replay_cancel, ask_for, ask_provider, resolve_cancellation, carry_out, respond_cancel,
  finish_cancel, start_cancel, cancel_loaded, attempt_cancel, cancel_new, cancel,
}
use doot_backend.Payment.Cover.{IsValid}
use doot_backend.Payment.Cover.Rules.{Keeps}
use doot_backend.Payment.Cover.Reasoning.{keeping, Option-Keeps}
use doot_backend.Payment.Cover.Request.{IsFairOutside}
use doot_backend.Payment.Store.{Store}

move_found-Keeps : (input : Transition) (d : Option DeliveryRow) → Keeps (move_found input d)
unfolding move_found move_row record_event
move_found-Keeps input none = search keeping
move_found-Keeps input (some d) = search keeping depth 14

transition-Keeps :
    (guarded : Bool) (current : DeliveryStatus) (input : Transition)
    → Keeps (transition guarded current input)
unfolding transition transition_status run_transition
transition-Keeps guarded current input = search (keeping, move_found-Keeps) depth 10

replay_cancel-Keeps :
    (input : CancelRequest) (row : CancellationKey) → Keeps (replay_cancel input row)
replay_cancel-Keeps input row = search keeping

finalize-Keeps :
    (c : DeliveryCancellation) (status : CancellationStatus)
    → Keeps (finalize_cancellation c status)
unfolding finalize_cancellation
finalize-Keeps c status = search keeping depth 8

save_key-Keeps :
    (input : CancelRequest) (response : CancellationResponse) (key : Option String)
    → Keeps (save_key input response key)
save_key-Keeps input response none = search keeping
save_key-Keeps input response (some key) = search keeping depth 12

save-Keeps :
    (input : CancelRequest) (response : CancellationResponse)
    → Keeps (save_idempotency input response)
unfolding save_idempotency
save-Keeps input response = save_key-Keeps input response input.idempotency_key

-- What is assumed of the others that commit during a cancellation: they keep the invariant too.
pub record IsFairCancel (o : CancelOutside) : Type 0 where
  pub payments : IsFairOutside o.payments
  pub cancel_booking : (order : String) → Keeps (o.cancel_booking order)
  pub pause : Keeps (o.pause)

module _ (o : CancelOutside) (fair : IsFairCancel o) where
  create-Keeps : (k : ℕ) (b : Option ProviderBooking) (n : ℕ) → Keeps (create_cancellation o k b n)
  unfolding create_cancellation
  create-Keeps k b n = search keeping depth 8

  ask_for-Keeps : (order : Option String) → Keeps (ask_for o order)
  ask_for-Keeps none = search keeping
  ask_for-Keeps (some order) = search (keeping, fair.cancel_booking)

  resolve-Keeps :
      (local_only : Bool) (b : Option ProviderBooking) (c : DeliveryCancellation)
      → Keeps (resolve_cancellation o local_only b c)
  unfolding resolve_cancellation ask_provider
  resolve-Keeps true b c = search keeping
  resolve-Keeps false none c = search (keeping, finalize-Keeps)
  resolve-Keeps false (some b) c = search (keeping, finalize-Keeps, ask_for-Keeps)

  carry_out-Keeps :
      (input : CancelRequest) (d : DeliveryRow) (outcome : Outcome)
      → Keeps (carry_out o input d outcome)
  unfolding carry_out
  carry_out-Keeps input d Outcome.cancelled =
      search
        (
          keeping,
          fair.pause,
          transition-Keeps,
          refund_prepaid_after_cancellation-Keeps o.payments fair.payments o.draws,
        )
        depth 8
  carry_out-Keeps input d Outcome.rejected = search keeping
  carry_out-Keeps input d Outcome.unknown = search keeping

  respond-Keeps :
      (input : CancelRequest) (d : DeliveryRow) (c : DeliveryCancellation) (outcome : Outcome)
      (refund : Option Summary)
      → Keeps (respond_cancel input d c outcome refund)
  unfolding respond_cancel
  respond-Keeps input d c outcome refund = search (keeping, save-Keeps) depth 10

  finish-Keeps :
      (input : CancelRequest) (d : DeliveryRow) (c : DeliveryCancellation) (outcome : Outcome)
      → Keeps (finish_cancel o input d c outcome)
  unfolding finish_cancel
  finish-Keeps input d c outcome =
      search (keeping, fair.pause, finalize-Keeps, carry_out-Keeps, respond-Keeps) depth 10

  attempt-Keeps :
      (input : CancelRequest) (d : DeliveryRow) (local_only : Bool) (b : Option ProviderBooking)
      → Keeps (attempt_cancel o input d local_only b)
  unfolding attempt_cancel
  attempt-Keeps input d local_only b =
      search (keeping, fair.pause, create-Keeps, resolve-Keeps, finish-Keeps) depth 12

  start-Keeps :
      (input : CancelRequest) (d : DeliveryRow) (local_only : Bool) (b : Option ProviderBooking)
      → Keeps (start_cancel o input d local_only b)
  unfolding start_cancel
  start-Keeps input d local_only b = search (keeping, attempt-Keeps) depth 10

  loaded-Keeps :
      (input : CancelRequest) (d : DeliveryRow) (b : Option ProviderBooking)
      → Keeps (cancel_loaded o input d b)
  unfolding cancel_loaded
  loaded-Keeps input d b = search (keeping, start-Keeps) depth 8

  cancel_new-Keeps : (input : CancelRequest) → Keeps (cancel_new o input)
  unfolding cancel_new load_delivery
  cancel_new-Keeps input = search (keeping, fair.pause, loaded-Keeps) depth 10

  cancel_call-Keeps : (input : CancelRequest) → Keeps (cancel o input)
  unfolding cancel
  cancel_call-Keeps input =
      search (keeping, Option-Keeps, replay_cancel-Keeps, cancel_new-Keeps) depth 8

-- A cancellation keeps the invariant of the payment tables on every branch, replays, refusals and the
-- refund at the gateway included, where what others commit during its waits keeps it too.
pub cancel-Keeps :
    (o : CancelOutside) (input : CancelRequest) (s : Store)
    → IsFairCancel o
    → IsValid s
    → IsValid (cancel o input s).1
cancel-Keeps o input s fair v = cancel_call-Keeps o fair input s v
