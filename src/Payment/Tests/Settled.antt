-- ===== src/Payment/Tests/Settled.antt =====
-- A refund settled under the lock.
use doot_backend.Base.{◌≡◌, refl, none, some}
use doot_backend.Payment.Number.{is_refund_within_paid_amount, of_paise, add, decimal}
use doot_backend.Payment.Types.{RefundStatus, Refund, LedgerKey}
use doot_backend.Payment.Transitions.{can_transition_payment, is_terminal_payment_status}
use doot_backend.Payment.Store.{Store, ok}
use doot_backend.Payment.Repository.Queries.{
  find_by_id, find_refund_by_id, find_ledger_by_idempotency_key,
}
use doot_backend.Payment.Repository.Writes.{update_payment_status}
use doot_backend.Payment.Repository.RefundWrites.{create_ledger_entry, update_refund_status}
use doot_backend.Payment.Service.Settlement.{
  ensure_refund_ledger_entry, Settling, settle_payment, after_refund_update, settle_refund,
  finalize_after_lock,
}
use doot_backend.Payment.Entries.{IsEntered, finalize_after_lock-IsEntered}
use doot_backend.Payment.Tests.{open_refund, shop, draws}

abbrev settling : Settling
settling = record {
  refund_id = 21;
  gateway_refund_id = some "gr_1";
  gateway_refund_reference = none;
}

abbrev settled_refund : Refund
settled_refund = record open_refund { status = RefundStatus.success; processed_at = some 100 }

abbrev settled_shop : Store
settled_shop = (finalize_after_lock draws settling open_refund none shop).1

settles :
    finalize_after_lock draws settling open_refund none shop ≡ (ok settled_refund, settled_shop)
unfolding can_transition_payment is_terminal_payment_status find_by_id find_refund_by_id
    find_ledger_by_idempotency_key update_payment_status create_ledger_entry update_refund_status
    is_refund_within_paid_amount of_paise add decimal ensure_refund_ledger_entry settle_payment
    after_refund_update settle_refund finalize_after_lock
settles = refl

finalize_after_lock-IsEntered_example : IsEntered (LedgerKey.refund 21) settled_shop
finalize_after_lock-IsEntered_example =
    finalize_after_lock-IsEntered draws settling open_refund settled_refund shop settled_shop
      settles
