-- ===== src/Payment/Repository/RefundWrites.antt =====
-- What the payment repository writes of refunds and of the ledger:
-- src/modules/payment/payment.repository.ts. Ids and patches are as in Writes.antt.
use doot_backend.Base.{ℕ, Option, none, some, String, List, ◌∷◌, if◌then◌else◌, is_some, get_or}
use doot_backend.Base.Table.{find, update}
use doot_backend.Payment.Types.{
  RefundStatus, LedgerEntryType, LedgerDirection, Refund, LedgerKey, LedgerEntry,
}
use doot_backend.Payment.Transitions.{refund_in}
use doot_backend.Payment.Store.{UniqueColumn, unique_violation, ok, err, Db}
use doot_backend.Payment.Repository.Queries.{
  refund_id_of, entry_id_of, find_refund_by_id, find_refund_by_idempotency_key,
  find_ledger_by_idempotency_key,
}

pub record NewRefund : Type 0 where
  pub payment_id : ℕ
  pub delivery_id : ℕ
  pub amount : ℕ
  pub currency : String
  pub idempotency_key : String
  pub reason_code : Option String
  pub reason : Option String
  pub status : Option RefundStatus

-- The row that `createRefund` inserts.
abbrev pub refund_row : ℕ → ℕ → NewRefund → Refund
refund_row new_id now input = record {
  id = new_id;
  payment_id = input.payment_id;
  delivery_id = input.delivery_id;
  amount = input.amount;
  currency = input.currency;
  status = get_or input.status RefundStatus.requested;
  reason_code = input.reason_code;
  reason = input.reason;
  gateway_refund_id = none;
  gateway_refund_reference = none;
  idempotency_key = input.idempotency_key;
  requested_at = now;
  processed_at = none;
}

unfoldable pub create_refund : ℕ → ℕ → NewRefund → Db Refund
unfolding find_refund_by_idempotency_key
create_refund new_id now input s =
    if is_some (find refund_id_of new_id s.refunds)
    then (err (unique_violation UniqueColumn.primary_key), s)
    else if is_some (find_refund_by_idempotency_key input.idempotency_key s)
    then (err (unique_violation UniqueColumn.refund_idempotency_key), s)
    else (
      ok (refund_row new_id now input),
      record s { refunds = refund_row new_id now input ∷ s.refunds },
    )

pub record RefundPatch : Type 0 where
  pub refund_id : ℕ
  pub from_statuses : List RefundStatus
  pub to_status : RefundStatus
  pub gateway_refund_id : Option (Option String)
  pub gateway_refund_reference : Option (Option String)
  pub processed_at : Option (Option ℕ)

abbrev pub patch_refund : RefundPatch → Refund → Refund
patch_refund d r = record r {
  status = d.to_status;
  gateway_refund_id = get_or d.gateway_refund_id r.gateway_refund_id;
  gateway_refund_reference = get_or d.gateway_refund_reference r.gateway_refund_reference;
  processed_at = get_or d.processed_at r.processed_at;
}

unfoldable pub update_refund_status : RefundPatch → Db (Option Refund)
unfolding find_refund_by_id
update_refund_status d s = elim (find_refund_by_id d.refund_id s) [
  | none ↦ (ok none, s)
  | some r ↦
      if refund_in d.from_statuses r.status
      then (
        ok (some (patch_refund d r)),
        record s { refunds = update refund_id_of d.refund_id (patch_refund d) s.refunds },
      )
      else (ok none, s)
]

pub record NewLedgerEntry : Type 0 where
  pub delivery_id : ℕ
  pub payment_id : ℕ
  pub refund_id : Option ℕ
  pub type : LedgerEntryType
  pub direction : LedgerDirection
  pub amount : ℕ
  pub currency : String
  pub description : String
  pub idempotency_key : LedgerKey

-- The row that `createLedgerEntry` inserts.
abbrev pub ledger_row : ℕ → NewLedgerEntry → LedgerEntry
ledger_row new_id input = record {
  id = new_id;
  delivery_id = input.delivery_id;
  payment_id = input.payment_id;
  refund_id = input.refund_id;
  type = input.type;
  direction = input.direction;
  amount = input.amount;
  currency = input.currency;
  description = input.description;
  idempotency_key = input.idempotency_key;
}

unfoldable pub create_ledger_entry : ℕ → NewLedgerEntry → Db LedgerEntry
unfolding find_ledger_by_idempotency_key
create_ledger_entry new_id input s =
    if is_some (find entry_id_of new_id s.ledger)
    then (err (unique_violation UniqueColumn.primary_key), s)
    else if is_some (find_ledger_by_idempotency_key input.idempotency_key s)
    then (err (unique_violation UniqueColumn.ledger_idempotency_key), s)
    else (ok (ledger_row new_id input), record s { ledger = ledger_row new_id input ∷ s.ledger })
