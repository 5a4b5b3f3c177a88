-- ===== src/Payment/Repository/Queries.antt =====
-- What the payment repository reads: src/modules/payment/payment.repository.ts.
use doot_backend.Base.{
  ℕ, Bool, false, ◌&&◌, ◌||◌, Option, none, some, String, List, [], ◌∷◌, ltb, ◌==◌, if◌then◌else◌,
}
use doot_backend.Base.Table.{find, total}
use text.Mathlib.Text.{◌==◌ as str_eq}
use doot_backend.Payment.Number.{Number, add_rows}
use doot_backend.Payment.Types.{
  RefundStatus, Payment, Attempt, Refund, LedgerKey, same_key, LedgerEntry, CreateKey,
}
use doot_backend.Payment.Transitions.{refund_in}
use doot_backend.Payment.Store.{Store}

abbrev pub payment_id_of : Payment → ℕ
payment_id_of p = p.id

abbrev pub refund_id_of : Refund → ℕ
refund_id_of r = r.id

abbrev pub attempt_id_of : Attempt → ℕ
attempt_id_of a = a.id

abbrev pub entry_id_of : LedgerEntry → ℕ
entry_id_of e = e.id

-- `findUnique` on a text column
abbrev find_by_text : {A : Type 0} → (A → String) → String → List A → Option A
find_by_text column k [] = none
find_by_text column k (x ∷ xs) = if str_eq (column x) k then some x else find_by_text column k xs

unfoldable pub find_by_delivery_id : ℕ → Store → Option Payment
find_by_delivery_id k s = find (λ p. p.delivery_id) k s.payments

unfoldable pub find_by_id : ℕ → Store → Option Payment
find_by_id k s = find payment_id_of k s.payments

abbrev has_order : String → Payment → Bool
has_order o p = elim (p.gateway_order_id) [ none ↦ false | some o' ↦ str_eq o' o ]

abbrev pub find_order : String → List Payment → Option Payment
find_order o [] = none
find_order o (p ∷ ps) = if has_order o p then some p else find_order o ps

unfoldable pub find_by_gateway_order_id : String → Store → Option Payment
find_by_gateway_order_id o s = find_order o s.payments

-- The later of two attempts; a tie keeps the one that stands first.
abbrev later : Attempt → Option Attempt → Attempt
later a none = a
later a (some b) = if ltb a.attempt_number b.attempt_number then b else a

abbrev latest_of : ℕ → List Attempt → Option Attempt
latest_of k [] = none
latest_of k (a ∷ as_) =
    let rest = latest_of k as_ in if a.payment_id == k then some (later a rest) else rest

unfoldable pub find_latest_attempt : ℕ → Store → Option Attempt
find_latest_attempt k s = latest_of k s.attempts

unfoldable pub find_refund_by_id : ℕ → Store → Option Refund
find_refund_by_id k s = find refund_id_of k s.refunds

unfoldable pub find_refund_by_idempotency_key : String → Store → Option Refund
find_refund_by_idempotency_key k s = find_by_text (λ r. r.idempotency_key) k s.refunds

abbrev column_is : Option String → String → Bool
column_is none k = false
column_is (some t) k = str_eq t k

abbrev find_gateway_refund : String → List Refund → Option Refund
find_gateway_refund k [] = none
find_gateway_refund k (r ∷ rs) =
    if column_is r.gateway_refund_id k || column_is r.gateway_refund_reference k
    then some r
    else find_gateway_refund k rs

unfoldable pub find_refund_by_gateway_refund_id : String → Store → Option Refund
find_refund_by_gateway_refund_id k s = find_gateway_refund k s.refunds

abbrev find_entry : LedgerKey → List LedgerEntry → Option LedgerEntry
find_entry k [] = none
find_entry k (e ∷ es) = if same_key e.idempotency_key k then some e else find_entry k es

unfoldable pub find_ledger_by_idempotency_key : LedgerKey → Store → Option LedgerEntry
find_ledger_by_idempotency_key k s = find_entry k s.ledger

-- The amount of a refund of the payment, if its status is in the list.
abbrev pub amount_in : List RefundStatus → ℕ → Refund → ℕ
amount_in statuses k r = if r.payment_id == k && refund_in statuses r.status then r.amount else 0

abbrev pub active_statuses : List RefundStatus
active_statuses = RefundStatus.requested ∷ RefundStatus.pending ∷ RefundStatus.success ∷ []

unfoldable pub sum_successful_refund_amounts : ℕ → Store → Number
sum_successful_refund_amounts k s = record {
  paise = total (amount_in (RefundStatus.success ∷ []) k) s.refunds;
  double = add_rows (amount_in (RefundStatus.success ∷ []) k) 0 s.refunds;
}

unfoldable pub sum_active_refund_amounts : ℕ → Store → Number
sum_active_refund_amounts k s = record {
  paise = total (amount_in active_statuses k) s.refunds;
  double = add_rows (amount_in active_statuses k) 0 s.refunds;
}

abbrev pub find_key : ℕ → String → List CreateKey → Option CreateKey
find_key c k [] = none
find_key c k (x ∷ xs) = if x.customer_id == c && str_eq x.key k then some x else find_key c k xs

unfoldable pub find_create_idempotency : ℕ → String → Store → Option CreateKey
find_create_idempotency c k s = find_key c k s.create_keys
