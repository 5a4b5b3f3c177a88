-- ===== src/Payment/Apart.antt =====
-- The calls of src/modules/payment/payment.service.ts that refund do not write to the tables about
-- deliveries; what others commit meanwhile may.
use doot_backend.Base.{ℕ, Option, none, some, String, arith}
use doot_backend.Delivery.Trail.Rules.{Advances, advances, Option-Advances, untouched-Follows}
use doot_backend.Payment.Number.{Number}
use doot_backend.Payment.Types.{PaymentStatus, Payment, Refund, LedgerKey, LedgerEntry, GatewayCode}
use doot_backend.Payment.Store.{Failure, unique_violation, app_error, row_missing, other_error}
use doot_backend.Payment.Repository.Writes.{PaymentPatch, update_payment_status}
use doot_backend.Payment.Repository.RefundWrites.{
  NewRefund, create_refund, RefundPatch, update_refund_status, NewLedgerEntry, create_ledger_entry,
}
use doot_backend.Payment.Service.Outside.{
  Draws, Outside, GatewayRefundInput, GatewayRefundResult, GatewayRefundStatus,
}
use doot_backend.Payment.Service.RefundSteps.{
  RefundRequest, existing_reservation, reserve_new_refund, reserve_after_lock,
  reserve_active_refund, mark_refund_failed,
}
use doot_backend.Payment.Service.Settlement.{
  on_ledger_conflict, ensure_refund_ledger_entry, must_agree, check_repaired, repair_payment,
  enter_ledger, reconcile_successful_refund_record, reconcile_again, Settling, record_settled,
  settle_payment, after_refund_update, settle_refund, finalize_after_lock,
  finalize_refund_success_in_transaction, on_settle_conflict, mark_refund_successful,
}
use doot_backend.Payment.Service.Refunds.{
  on_reserve_conflict, Next, settle, fail, give, give_pending, next_of, ask_gateway, ignoring,
  on_gateway_error, go_on, order_of, refund_at_gateway, reserve_once, Reserved, finished, holding,
  after_reserve, request_refund,
}

create_refund-Advances : (k now : ℕ) (input : NewRefund) → Advances (create_refund k now input)
unfolding create_refund
create_refund-Advances k now input s = untouched-Follows s _ (ground arith)

update_refund_status-Advances : (d : RefundPatch) → Advances (update_refund_status d)
unfolding update_refund_status
update_refund_status-Advances d s = untouched-Follows s _ (ground arith)

create_ledger-Advances : (k : ℕ) (input : NewLedgerEntry) → Advances (create_ledger_entry k input)
unfolding create_ledger_entry
create_ledger-Advances k input s = untouched-Follows s _ (ground arith)

update_payment_status-Advances : (d : PaymentPatch) → Advances (update_payment_status d)
unfolding update_payment_status
update_payment_status-Advances d s = untouched-Follows s _ (ground arith)

existing-Advances : (r : Refund) → Advances (existing_reservation r)
unfolding existing_reservation
existing-Advances r = search advances

reserve_new-Advances : (c : Draws) (input : RefundRequest) → Advances (reserve_new_refund c input)
unfolding reserve_new_refund
reserve_new-Advances c input = search (advances, create_refund-Advances) depth 16

reserve_after_lock-Advances :
    (c : Draws) (input : RefundRequest) → Advances (reserve_after_lock c input)
unfolding reserve_after_lock
reserve_after_lock-Advances c input =
    search (advances, Option-Advances, existing-Advances, reserve_new-Advances)

mark_refund_failed-Advances : (c : Draws) (k : ℕ) → Advances (mark_refund_failed c k)
unfolding mark_refund_failed
mark_refund_failed-Advances c k = search (advances, update_refund_status-Advances)

on_ledger_conflict-Advances : (key : LedgerKey) (e : Failure) → Advances (on_ledger_conflict key e)
unfolding on_ledger_conflict
on_ledger_conflict-Advances key (unique_violation column) = search (advances, Option-Advances)
on_ledger_conflict-Advances key (app_error code status) = search advances
on_ledger_conflict-Advances key row_missing = search advances
on_ledger_conflict-Advances key other_error = search advances

ensure_entry-Advances :
    (c : Draws) (p : Payment) (r : Refund) (key : LedgerKey)
    → Advances (ensure_refund_ledger_entry c p r key)
unfolding ensure_refund_ledger_entry
ensure_entry-Advances c p r key =
    search (advances, Option-Advances, create_ledger-Advances, on_ledger_conflict-Advances) depth 8

must_agree-Advances :
    (p : Option Payment) (n : Number) (to : PaymentStatus) → Advances (must_agree p n to)
must_agree-Advances none n to = search advances
must_agree-Advances (some p) n to = search advances

check_repaired-Advances :
    (k : ℕ) (n : Number) (to : PaymentStatus) (p : Option Payment)
    → Advances (check_repaired k n to p)
check_repaired-Advances k n to (some p) = search advances
check_repaired-Advances k n to none = search (advances, must_agree-Advances)

repair-Advances : (p : Payment) (n : Number) (to : PaymentStatus) → Advances (repair_payment p n to)
unfolding repair_payment
repair-Advances p n to =
    search (advances, update_payment_status-Advances, check_repaired-Advances) depth 10

enter_ledger-Advances :
    (c : Draws) (p : Payment) (r : Refund) (key : LedgerKey) → Advances (enter_ledger c p r key)
enter_ledger-Advances c p r key = search (advances, ensure_entry-Advances)

reconcile_record-Advances :
    (c : Draws) (r : Refund) (known : Option LedgerEntry) (key : LedgerKey)
    → Advances (reconcile_successful_refund_record c r known key)
unfolding reconcile_successful_refund_record
reconcile_record-Advances c r (some entry) key = search advances
reconcile_record-Advances c r none key =
    search (advances, repair-Advances, enter_ledger-Advances) depth 12

reconcile_again-Advances :
    (c : Draws) (r : Refund) (known : Option LedgerEntry) (key : LedgerKey)
    → Advances (reconcile_again c r known key)
unfolding reconcile_again
reconcile_again-Advances c r known key = search (advances, reconcile_record-Advances)

record_settled-Advances :
    (c : Draws) (p : Payment) (r : Refund) (n : Number) (key : LedgerKey) (updated : Option Payment)
    → Advances (record_settled c p r n key updated)
record_settled-Advances c p r n key (some q) = search (advances, ensure_entry-Advances)
record_settled-Advances c p r n key none =
    search (advances, must_agree-Advances, enter_ledger-Advances) depth 8

settle_payment-Advances :
    (c : Draws) (p : Payment) (r : Refund) (n : Number) (key : LedgerKey)
    → Advances (settle_payment c p r n key)
unfolding settle_payment
settle_payment-Advances c p r n key =
    search (advances, update_payment_status-Advances, record_settled-Advances)

after_update-Advances :
    (c : Draws) (p : Payment) (k : ℕ) (n : Number) (known : Option LedgerEntry) (key : LedgerKey)
    (updated : Option Refund)
    → Advances (after_refund_update c p k n known key updated)
unfolding after_refund_update
after_update-Advances c p k n known key (some r) = settle_payment-Advances c p r n key
after_update-Advances c p k n known key none = search (advances, reconcile_again-Advances) depth 10

settle_refund-Advances :
    (c : Draws) (input : Settling) (k : ℕ) (r : Refund) (known : Option LedgerEntry)
    (key : LedgerKey)
    → Advances (settle_refund c input k r known key)
unfolding settle_refund
settle_refund-Advances c input k r known key =
    search (advances, update_refund_status-Advances, after_update-Advances) depth 16

after_lock-Advances :
    (c : Draws) (input : Settling) (before : Refund) (known : Option LedgerEntry)
    → Advances (finalize_after_lock c input before known)
unfolding finalize_after_lock
after_lock-Advances c input before known =
    search (advances, reconcile_again-Advances, settle_refund-Advances) depth 10

on_settle_conflict-Advances : (k : ℕ) (e : Failure) → Advances (on_settle_conflict k e)
unfolding on_settle_conflict
on_settle_conflict-Advances k (unique_violation column) = search (advances, Option-Advances) depth 8
on_settle_conflict-Advances k (app_error code status) = search advances
on_settle_conflict-Advances k row_missing = search advances
on_settle_conflict-Advances k other_error = search advances

-- What is assumed of the others that commit while a refund waits: they follow the diagram.
pub record IsSteadyOutside (o : Outside) : Type 0 where
  pub lock : (k : ℕ) → Advances (o.lock k)
  pub create_refund : (g : GatewayCode) (i : GatewayRefundInput) → Advances (o.create_refund g i)
  pub pause : Advances (o.pause)

module _ (o : Outside) (steady : IsSteadyOutside o) (c : Draws) where
  reserve_active-Advances : (input : RefundRequest) → Advances (reserve_active_refund o c input)
  unfolding reserve_active_refund
  reserve_active-Advances input =
      search
        (advances, Option-Advances, existing-Advances, reserve_after_lock-Advances, steady.lock)
        depth 8

  in_transaction-Advances :
      (input : Settling) → Advances (finalize_refund_success_in_transaction o c input)
  unfolding finalize_refund_success_in_transaction
  in_transaction-Advances input =
      search (advances, steady.lock, reconcile_record-Advances, after_lock-Advances) depth 16

  successful-Advances : (input : Settling) → Advances (mark_refund_successful o c input)
  unfolding mark_refund_successful
  successful-Advances input =
      search (advances, in_transaction-Advances, on_settle_conflict-Advances)

  go_on-Advances : (k : ℕ) (next : Next) → Advances (go_on o c k next)
  unfolding go_on
  go_on-Advances k (settle result) = successful-Advances _
  go_on-Advances k fail = mark_refund_failed-Advances c k
  go_on-Advances k (give r) = search advances

  give_pending-Advances : (k : ℕ) (r : Option Refund) → Advances (give_pending k r)
  unfolding give_pending
  give_pending-Advances k r = search advances depth 8

  next_of-Advances :
      (result : GatewayRefundResult) (k : ℕ) (r : Option Refund) (status : GatewayRefundStatus)
      → Advances (next_of result k r status)
  next_of-Advances result k r GatewayRefundStatus.success = search advances
  next_of-Advances result k r GatewayRefundStatus.failed = search advances
  next_of-Advances result k r GatewayRefundStatus.pending = give_pending-Advances k r

  ask_gateway-Advances :
      (input : RefundRequest) (r : Refund) (p : Payment) (order : String)
      → Advances (ask_gateway o input r p order)
  unfolding ask_gateway
  ask_gateway-Advances input r p order =
      search (advances, steady.create_refund, update_refund_status-Advances, next_of-Advances) depth
        8

  on_gateway_error-Advances : (k : ℕ) (e : Failure) → Advances (on_gateway_error c k e)
  unfolding on_gateway_error
  on_gateway_error-Advances k e = search (advances, ignoring-Advances)
    where
      ignoring-Advances : Advances (ignoring (mark_refund_failed c k))
      ignoring-Advances = mark_refund_failed-Advances c k

  order_of-Advances : (order : Option String) → Advances (order_of order)
  order_of-Advances none = search advances
  order_of-Advances (some order) = search advances

  at_gateway-Advances :
      (input : RefundRequest) (r : Refund) (p : Payment)
      → Advances (refund_at_gateway o c input r p)
  unfolding refund_at_gateway
  at_gateway-Advances input r p =
      search
        (
          advances, order_of-Advances, ask_gateway-Advances, on_gateway_error-Advances,
          go_on-Advances,
        )
        depth 8

  on_reserve_conflict-Advances : (key : String) (e : Failure) → Advances (on_reserve_conflict key e)
  on_reserve_conflict-Advances key e = search (advances, Option-Advances) depth 8

  reserve_once-Advances : (input : RefundRequest) → Advances (reserve_once o c input)
  unfolding reserve_once
  reserve_once-Advances input =
      search (advances, reserve_active-Advances, on_reserve_conflict-Advances) depth 8

  after_reserve-Advances :
      (input : RefundRequest) (next : Reserved) → Advances (after_reserve o c input next)
  after_reserve-Advances input (finished r) = search advances
  after_reserve-Advances input (holding r p) = at_gateway-Advances input r p

  pub request_refund-Advances : (input : RefundRequest) → Advances (request_refund o c input)
  unfolding request_refund
  request_refund-Advances input =
      search (advances, Option-Advances, reserve_once-Advances, after_reserve-Advances) depth 10
