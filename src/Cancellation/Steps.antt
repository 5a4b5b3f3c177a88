-- ===== src/Cancellation/Steps.antt =====
-- What a cancellation does to the deliveries and their log:
-- src/modules/cancellation/cancellation.service.ts.
use doot_backend.Base.{ℕ, refl, Bool, true, false, Option, none, some, String}
use doot_backend.Delivery.{DeliveryRow}
use doot_backend.Delivery.Tables.{
  ProviderBooking, CancellationStatus, DeliveryCancellation, CancellationResponse, CancellationKey,
}
use doot_backend.Delivery.Lifecycle.{load_delivery, transition}
use doot_backend.Delivery.Trail.Rules.{Advances, advances, Option-Advances}
use doot_backend.Delivery.Trail.Own.{transition_own-Advances}
use doot_backend.Cancellation.Outcome.{Outcome}
use doot_backend.Cancellation.Refunding.{
  Summary, Cancelled, on_refund_error, request_remaining, refund_remaining, refund_if_paid,
  refund_prepaid_after_cancellation,
}
use doot_backend.Cancellation.Records.{
  CancelRequest, CancelOutside, create_cancellation, finalize_cancellation, save_key,
  save_idempotency,
}
use doot_backend.Cancellation.Service.{
  ask_for, replay_cancel, ask_provider, resolve_cancellation, to_cancelled, carry_out,
  respond_cancel, finish_cancel, start_cancel, cancel_loaded, attempt_cancel, cancel_new, cancel,
}
use doot_backend.Payment.Number.{Number}
use doot_backend.Payment.Apart
use doot_backend.Payment.Apart.{request_refund-Advances}
use doot_backend.Payment.Types.{Payment}
use doot_backend.Payment.Store.{Failure}
use doot_backend.Payment.Service.Outside
use doot_backend.Payment.Service.Outside.{Draws}

module _ (o : Outside.Outside) (steady : Apart.IsSteadyOutside o) (c : Draws)
    (input : Cancelled) where
  on_refund_error-Advances :
      (p : Payment) (n : Number) (e : Failure) → Advances (on_refund_error input p n e)
  on_refund_error-Advances p n e = search (advances, Option-Advances) depth 8

  request_remaining-Advances :
      (p : Payment) (n : Number) → Advances (request_remaining o c input p n)
  request_remaining-Advances p n = search (advances, request_refund-Advances o steady c)

  refund_remaining-Advances : (p : Payment) → Advances (refund_remaining o c input p)
  unfolding refund_remaining
  refund_remaining-Advances p =
      search (advances, steady.pause, request_remaining-Advances, on_refund_error-Advances) depth 10

  refund_if_paid-Advances : (p : Option Payment) → Advances (refund_if_paid o c input p)
  refund_if_paid-Advances none = search advances
  refund_if_paid-Advances (some p) = search (advances, refund_remaining-Advances)

  refund_prepaid-Advances : Advances (refund_prepaid_after_cancellation o c input)
  unfolding refund_prepaid_after_cancellation
  refund_prepaid-Advances = search (advances, Option-Advances, refund_if_paid-Advances) depth 8

-- What is assumed of the others that commit during a cancellation: they too follow the diagram.
pub record IsSteadyOutside (o : CancelOutside) : Type 0 where
  pub payments : Apart.IsSteadyOutside o.payments
  pub cancel_booking : (order : String) → Advances (o.cancel_booking order)
  pub pause : Advances (o.pause)

replay_cancel-Advances :
    (input : CancelRequest) (row : CancellationKey) → Advances (replay_cancel input row)
replay_cancel-Advances input row = search advances

finalize-Advances :
    (c : DeliveryCancellation) (status : CancellationStatus)
    → Advances (finalize_cancellation c status)
unfolding finalize_cancellation
finalize-Advances c status = search advances depth 8

save_key-Advances :
    (input : CancelRequest) (response : CancellationResponse) (key : Option String)
    → Advances (save_key input response key)
save_key-Advances input response none = search advances
save_key-Advances input response (some key) = search advances depth 12

save-Advances :
    (input : CancelRequest) (response : CancellationResponse)
    → Advances (save_idempotency input response)
unfolding save_idempotency
save-Advances input response = save_key-Advances input response input.idempotency_key

module _ (o : CancelOutside) (steady : IsSteadyOutside o) where
  create-Advances :
      (k : ℕ) (b : Option ProviderBooking) (n : ℕ) → Advances (create_cancellation o k b n)
  unfolding create_cancellation
  create-Advances k b n = search advances depth 8

  ask_for-Advances : (order : Option String) → Advances (ask_for o order)
  ask_for-Advances none = search advances
  ask_for-Advances (some order) = search (advances, steady.cancel_booking)

  ask_provider-Advances : (b : ProviderBooking) → Advances (ask_provider o b)
  unfolding ask_provider
  ask_provider-Advances b = ask_for-Advances (o.order_to_cancel b)

  resolve-Advances :
      (local_only : Bool) (b : Option ProviderBooking) (c : DeliveryCancellation)
      → Advances (resolve_cancellation o local_only b c)
  unfolding resolve_cancellation
  resolve-Advances true b c = search advances
  resolve-Advances false none c = search (advances, finalize-Advances)
  resolve-Advances false (some b) c = search (advances, finalize-Advances, ask_provider-Advances)

  transition-Advances : (d : DeliveryRow) → Advances (transition true d.status (to_cancelled d))
  transition-Advances d = transition_own-Advances true d.status (to_cancelled d) refl refl

  carry_out-Advances :
      (input : CancelRequest) (d : DeliveryRow) (outcome : Outcome)
      → Advances (carry_out o input d outcome)
  unfolding carry_out
  carry_out-Advances input d Outcome.cancelled =
      search
        (
          advances,
          steady.pause,
          transition-Advances,
          refund_prepaid-Advances o.payments steady.payments o.draws,
        )
        depth 8
  carry_out-Advances input d Outcome.rejected = search advances
  carry_out-Advances input d Outcome.unknown = search advances

  respond-Advances :
      (input : CancelRequest) (d : DeliveryRow) (c : DeliveryCancellation) (outcome : Outcome)
      (refund : Option Summary)
      → Advances (respond_cancel input d c outcome refund)
  unfolding respond_cancel
  respond-Advances input d c outcome refund = search (advances, save-Advances) depth 10

  finish-Advances :
      (input : CancelRequest) (d : DeliveryRow) (c : DeliveryCancellation) (outcome : Outcome)
      → Advances (finish_cancel o input d c outcome)
  unfolding finish_cancel
  finish-Advances input d c outcome =
      search (advances, steady.pause, finalize-Advances, carry_out-Advances, respond-Advances) depth
        10

  attempt-Advances :
      (input : CancelRequest) (d : DeliveryRow) (local_only : Bool) (b : Option ProviderBooking)
      → Advances (attempt_cancel o input d local_only b)
  unfolding attempt_cancel
  attempt-Advances input d local_only b =
      search (advances, steady.pause, create-Advances, resolve-Advances, finish-Advances) depth 12

  start-Advances :
      (input : CancelRequest) (d : DeliveryRow) (local_only : Bool) (b : Option ProviderBooking)
      → Advances (start_cancel o input d local_only b)
  unfolding start_cancel
  start-Advances input d local_only b = search (advances, attempt-Advances) depth 10

  loaded-Advances :
      (input : CancelRequest) (d : DeliveryRow) (b : Option ProviderBooking)
      → Advances (cancel_loaded o input d b)
  unfolding cancel_loaded
  loaded-Advances input d b = search (advances, start-Advances) depth 8

  cancel_new-Advances : (input : CancelRequest) → Advances (cancel_new o input)
  unfolding cancel_new load_delivery
  cancel_new-Advances input = search (advances, steady.pause, loaded-Advances) depth 10

  pub cancel-Advances : (input : CancelRequest) → Advances (cancel o input)
  unfolding cancel
  cancel-Advances input =
      search (advances, Option-Advances, replay_cancel-Advances, cancel_new-Advances) depth 8
