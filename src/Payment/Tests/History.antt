-- ===== src/Payment/Tests/History.antt =====
-- A payment made, paid and refunded in part, from the empty store.
use doot_backend.Base.{◌≤◌, ◌≡◌, refl, none, some}
use doot_backend.Delivery.{load_authorized_delivery}
use doot_backend.Pricing.{resolve_customer_payable_amount}
use doot_backend.Payment.Number.{is_refund_within_paid_amount, of_paise, add, decimal, add_rows}
use doot_backend.Payment.Types.{PaymentStatus, Payment, to_customer_payment_dto}
use doot_backend.Payment.Transitions.{
  can_transition_payment, is_terminal_payment_status, can_transition_refund,
  is_terminal_refund_status,
}
use doot_backend.Payment.Store.{Store}
use doot_backend.Payment.Repository.Queries.{
  find_by_id, find_by_delivery_id, find_latest_attempt, find_refund_by_id,
  find_refund_by_idempotency_key, find_ledger_by_idempotency_key, sum_active_refund_amounts,
  sum_successful_refund_amounts, find_create_idempotency,
}
use doot_backend.Payment.Repository.Writes.{
  update_payment_status, create_attempt, update_attempt, create_payment, save_create_idempotency,
}
use doot_backend.Payment.Repository.RefundWrites.{
  create_refund, update_refund_status, create_ledger_entry,
}
use doot_backend.Payment.Service.Outside.{Draws}
use doot_backend.Payment.Service.RefundSteps.{
  RefundRequest, reserve_new_refund, reserve_after_lock, reserve_active_refund,
}
use doot_backend.Payment.Service.Settlement.{
  ensure_refund_ledger_entry, settle_payment, after_refund_update, settle_refund,
  finalize_after_lock, finalize_refund_success_in_transaction, mark_refund_successful,
}
use doot_backend.Payment.Service.Refunds.{
  ask_gateway, go_on, refund_at_gateway, reserve_once, request_refund,
}
use doot_backend.Payment.Service.Status.{Capture, capture_payment, capture_once, mark_payment_paid}
use doot_backend.Payment.Service.Checkout.{store_order, order_at_gateway, ensure_gateway_checkout}
use doot_backend.Payment.Service.Create.{
  price_of, resolve_authoritative_pricing, respond, insert_payment, create_or_reuse,
  create_payment_fresh, create_payment_for_delivery,
}
use doot_backend.Payment.Cover.{IsValid}
use doot_backend.Payment.Cover.History.{
  create, capture, refund, run, empty_store, Reachable, start, after, Reachable-IsValid,
  Reachable-capped,
}
use doot_backend.Payment.Tests.{
  payment_with, draws, quiet, quiet-IsFairOutside, refund_request, surroundings, create_request,
}

abbrev captured : Capture
captured = record {
  payment_id = 41;
  gateway_payment_id = some "pay_1";
  payment_method = some "UPI";
  idempotency_key = none;
}

abbrev refund_draws : Draws
refund_draws = record draws { ledger_id = 45 }

abbrev refunded : RefundRequest
refunded = record refund_request { payment_id = 41 }

-- The payment after the three calls: 2000 of 32450 paid back.
abbrev final_payment : Payment
final_payment = record (payment_with PaymentStatus.partially_refunded) {
  id = 41;
  gateway_order_id = some "order_2";
  gateway_payment_session_id = some "session_2";
  paid_at = some 100;
  refunded_amount = 2000;
}

abbrev final_store : Store
final_store = run quiet refund_draws (refund refunded) (
    run quiet draws (capture captured)
      (run quiet draws (create surroundings create_request) empty_store))

history : Reachable final_store
history =
    after
      (after (after start quiet quiet-IsFairOutside draws (create surroundings create_request))
        quiet quiet-IsFairOutside draws (capture captured))
      quiet quiet-IsFairOutside refund_draws (refund refunded)

final : find_by_id 41 final_store ≡ some final_payment
unfolding run load_authorized_delivery resolve_customer_payable_amount to_customer_payment_dto
    can_transition_payment is_terminal_payment_status can_transition_refund
    is_terminal_refund_status find_by_id find_by_delivery_id find_latest_attempt find_refund_by_id
    find_refund_by_idempotency_key find_ledger_by_idempotency_key sum_active_refund_amounts
    sum_successful_refund_amounts find_create_idempotency update_payment_status create_attempt
    update_attempt create_payment save_create_idempotency create_refund update_refund_status
    create_ledger_entry is_refund_within_paid_amount of_paise add decimal add_rows
    reserve_new_refund reserve_after_lock reserve_active_refund ensure_refund_ledger_entry
    settle_payment after_refund_update settle_refund finalize_after_lock
    finalize_refund_success_in_transaction mark_refund_successful ask_gateway go_on
    refund_at_gateway reserve_once request_refund capture_payment capture_once mark_payment_paid
    store_order order_at_gateway ensure_gateway_checkout price_of resolve_authoritative_pricing
    respond insert_payment create_or_reuse create_payment_fresh create_payment_for_delivery
final = refl

Reachable-IsValid_example : IsValid final_store
Reachable-IsValid_example = Reachable-IsValid final_store history

Reachable-capped_example :
    ((sum_active_refund_amounts 41 final_store).paise ≤ 32450)
    × (2000 ≡ (sum_successful_refund_amounts 41 final_store).paise)
Reachable-capped_example = Reachable-capped final_store 41 final_payment history final
